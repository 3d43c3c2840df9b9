-- ===== src/CString.antt =====
-- `strcmp` of src/mock_libc/mock_libc.c.
pub mod Compare
pub mod Search
pub mod Tests
use umka_os.Base.{◌≡◌, refl, Bool, true, false, ◌&&◌, [], ◌∷◌, arith, ◌==◌, Text}

-- `strcmp(a, b) == 0`.
unfoldable pub same : Text → Text → Bool
same [] [] = true
same [] (b ∷ bs) = false
same (a ∷ r) [] = false
same (a ∷ r) (b ∷ bs) = (a == b) && same r bs

pub same_refl : (a : Text) → same a a ≡ true
unfolding same
same_refl [] = refl
same_refl (x ∷ a) = ground (arith, same_refl a)

pub eq_of_same : (a b : Text) → same a b ≡ true → a ≡ b
unfolding same
eq_of_same [] [] h = refl
eq_of_same [] (y ∷ b) h = cc
eq_of_same (x ∷ a) [] h = cc
eq_of_same (x ∷ a) (y ∷ b) h = ground (arith, eq_of_same a b)
