-- ===== src/Memory/Bounded.antt =====
-- `strncpy` and `strncat` of src/mock_libc/mock_libc.c, on a memory of bytes. The first loop of
-- `strncat` takes fuel.
use umka_os.Base.{
  ℕ, zero, suc, ◌+◌, ◌≤◌, ◌<◌, ◌≡◌, refl, sym, ◌∙◌, ap, ◌⊎◌, true, false, [], ◌∷◌, arith, ◌==◌,
  ==-false, length, min, subst, Text, Res, ok, ◌>>=◌, update,
}
use umka_os.Memory.{Bytes, copy_up}
use umka_os.Memory.Strings.{IsString, IsString-update, strlen, strlen_loop-length}

-- The loop of `strncpy` and its terminator; the pointers stand for `d + i` and `s + i`, and the count
-- for `n - i`.
unfoldable pub copy_n : Bytes → ℕ → ℕ → ℕ → Bytes
copy_n m d s zero = update m d 0
copy_n m d s (suc n) = elim (m s == 0) [
  | true ↦ update m d 0
  | false ↦ copy_n (update m d (m s)) (d + 1) (s + 1) n
]

unfoldable pub strncpy : Bytes → ℕ → ℕ → ℕ → Bytes
strncpy m d s n = copy_n m d s n

-- `strncat`: its first loop is that of `strlen`; the second looks at the character before the count,
-- with the same result as `strncpy`.
unfoldable pub strncat : ℕ → Bytes → ℕ → ℕ → ℕ → Res Bytes
strncat fuel m d s c = strlen fuel m d >>= λ i. ok (copy_n m (d + i) s c)

-- The characters that are copied, and the terminator behind them.
abbrev pub terminated : Bytes → ℕ → ℕ → ℕ → Bytes
terminated m d s l = update (copy_up m d s l) (d + l) 0

copy_n-terminated :
    (m : Bytes) (d p n : ℕ) (text : Text)
    → IsString m p text
    → (d ≤ p) ⊎ (p + length text < d)
    → copy_n m d p n ≡ terminated m d p (min n (length text))
unfolding copy_n copy_up
copy_n-terminated m d p zero text s apart =
    let none : min 0 (length text) ≡ 0 = omega arith in
    let here : d + 0 ≡ d = omega arith in rw (none, here) refl
copy_n-terminated m d p (suc n) [] s apart =
    let none : min (suc n) 0 ≡ 0 = omega arith in
    let here : d + 0 ≡ d = omega arith in rw (copy_n, s, none, here) refl
copy_n-terminated m d p (suc n) (c ∷ text) (e, ne, s) apart =
    let goes_on : (m p == 0) ≡ false = ==-false (m p) 0 (λ z. ne (sym e ∙ z)) in
    let next : d + 1 + min n (length text) ≡ d + suc (min n (length text)) = omega arith in
    let one : min (suc n) (suc (length text)) ≡ suc (min n (length text)) = omega arith in
    rw (copy_n, goes_on, one)
      (copy_n-terminated (update m d (m p)) (d + 1) (p + 1) n text
          (IsString-update m (p + 1) d (m p) text (omega arith) s) (omega arith)
        ∙ ap (λ k. update (copy_up (update m d (m p)) (d + 1) (p + 1) (min n (length text))) k 0)
            next)

-- `strncpy` of a string whose copy does not reach it from behind copies its characters, at most `n`,
-- and puts a terminator behind them: with a string of `n` characters or more that is the byte `d + n`.
pub strncpy-terminated :
    (m : Bytes) (d s n : ℕ) (text : Text)
    → IsString m s text
    → (d ≤ s) ⊎ (s + length text < d)
    → strncpy m d s n ≡ terminated m d s (min n (length text))
unfolding strncpy
strncpy-terminated m d s n text string apart = copy_n-terminated m d s n text string apart

-- Appending at most `c` characters of the string at `s` to the string at `d` ends, where what is
-- written does not reach the string at `s` from behind: the characters are copied from the terminator
-- of `d` on, and a terminator is put behind them. Fuel for one more round than the string at `d` has
-- characters is enough.
pub strncat-terminated :
    (fuel : ℕ) (m : Bytes) (d s c : ℕ) (first second : Text)
    → IsString m d first
    → IsString m s second
    → (d + length first ≤ s) ⊎ (s + length second < d + length first)
    → length first < fuel
    → strncat fuel m d s c ≡ ok (terminated m (d + length first) s (min c (length second)))
unfolding strncat strlen
strncat-terminated fuel m d s c first second at_d at_s apart enough =
    let here : d ≡ d + 0 = omega arith in
    let end : d + (0 + length first) ≡ d + length first = omega arith in
    rw (strlen_loop-length fuel m d 0 first (subst (λ a. IsString m a first) here at_d) enough, end)
      (ap ok (copy_n-terminated m (d + length first) s c second at_s apart))
