-- ===== src/Memory/Tests.antt =====
-- Moving and clearing at concrete addresses.
use umka_os.Base.{refl, [], ◌∷◌, ◌≡◌, inl, arith, update, ok}
use umka_os.Memory.{Bytes, memmove}
use umka_os.Memory.Moves.{copied, memmove-copied}
use umka_os.Memory.Bounded.{strncat, terminated, strncat-terminated}

-- Each byte holds its address.
abbrev ramp : Bytes
ramp q = q

-- The regions overlap; byte 12 was at 10.
memmove-copied_example : memmove ramp 11 9 4 12 ≡ 10
unfolding copied
memmove-copied_example = memmove-copied ramp 11 9 4 12

-- The strings `a` at 0 and `b` at 8.
abbrev two_strings : Bytes
two_strings = update (update (λ q. 0) 0 b'a') 8 b'b'

strncat-terminated_example : strncat 2 two_strings 0 8 5 ≡ ok (terminated two_strings 1 8 1)
unfolding update
strncat-terminated_example =
    strncat-terminated 2 two_strings 0 8 5 (b'a' ∷ []) (b'b' ∷ []) (refl, (λ e. omega arith), refl)
      (refl, (λ e. omega arith), refl) (inl (omega arith)) (omega arith)
