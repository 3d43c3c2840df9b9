-- ===== src/CString/Compare.antt =====
-- `strncmp` of src/mock_libc/mock_libc.c.
use umka_os.Base.{
  ℕ, zero, suc, ◌+◌, ◌-◌, ◌≡◌, ◌≢◌, refl, ap, ◌∙◌, arith, true, false, [], ◌∷◌, ◌++◌, ◌==◌, ==_refl,
  ==-false, ltb, if◌then◌else◌, length, Text,
}
use umka_os.Base.Int.{ℤ, pos, negsuc, ◌-ℤ◌}

-- A `char` is signed.
unfoldable pub char_value : ℕ → ℤ
char_value c = if ltb c 128 then pos c else negsuc (255 - c)

-- `*s`, the terminator at the end.
unfoldable pub first_char : Text → ℤ
first_char [] = pos 0
first_char (c ∷ s) = char_value c

-- `n ? *a - *b : 0`, where `n-- && …` has stopped the loop.
unfoldable pub result : ℕ → Text → Text → ℤ
result n a b = if n == 0 then pos 0 else first_char a -ℤ first_char b

-- `strncmp`; the decrement of 0 wraps, so that `n` is not 0 afterwards.
unfoldable pub strncmp : ℕ → Text → Text → ℤ
strncmp zero a b = first_char a -ℤ first_char b
strncmp (suc n) [] b = result n [] b
strncmp (suc n) (x ∷ a) [] = result n (x ∷ a) []
strncmp (suc n) (x ∷ a) (y ∷ b) = elim (x == y) [
  | true ↦ strncmp n a b
  | false ↦ result n (x ∷ a) (y ∷ b)
]

-- For two strings that differ first behind a common part of some length: asked for that many
-- characters `strncmp` returns the difference behind them, asked for one more it returns 0, and
-- asked for two or more it returns the difference.
pub strncmp-differ :
    (common : Text) (x y : ℕ) (a b : Text) (k : ℕ)
    → x ≢ y
    → (strncmp (length common) (common ++ x ∷ a) (common ++ y ∷ b) ≡ char_value x -ℤ char_value y)
      × (strncmp (suc (length common)) (common ++ x ∷ a) (common ++ y ∷ b) ≡ pos 0)
      × (strncmp (suc (suc (length common + k))) (common ++ x ∷ a) (common ++ y ∷ b)
          ≡ char_value x -ℤ char_value y)
unfolding strncmp first_char result
strncmp-differ [] x y a b k ne = (
  refl,
  rw (strncmp, ==-false x y ne) refl,
  rw (strncmp, ==-false x y ne, result, ==-false (suc (0 + k)) 0 (λ e. omega arith)) refl,
)
strncmp-differ (c ∷ common) x y a b k ne =
    let (first, second, third) = strncmp-differ common x y a b k ne in
    let shift : suc (length common) + k ≡ suc (length common + k) = omega arith in
    let longer : strncmp (suc (suc (suc (length common) + k))) (c ∷ common ++ x ∷ a)
          (c ∷ common ++ y ∷ b)
        ≡ char_value x -ℤ char_value y =
      rw (strncmp, ==_refl c)
        (ap (λ j. strncmp (suc j) (common ++ x ∷ a) (common ++ y ∷ b)) shift ∙ third) in
    (rw (strncmp, ==_refl c) first, rw (strncmp, ==_refl c) second, longer)
