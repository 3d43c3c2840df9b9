-- ===== src/Base/Results.antt =====
-- The result of code that can fault: a null or dangling pointer, an access past the end of an
-- array, a failed `assert`, or a loop that has used up its fuel.
use Prim.Native.Nat.{ℕ, ◌≤◌}
use mathlib.Core.Logic.{◌⊎◌, inl, inr}
use mathlib.Core.Path.{◌≡◌, refl}
use native.Mathlib.Omega.{arith}

pub data Res {ℓ} (A : Type ℓ) : Type ℓ where
  ok : A → Res A
  fault : Res A

infixl 5 ◌>>=◌
abbrev pub ◌>>=◌ {ℓ κ} : {A : Type ℓ} {B : Type κ} → Res A → (A → Res B) → Res B
fault >>= next = fault
ok result >>= next = next result

module _ {ℓ κ} {A : Type ℓ} {B : Type κ} where
  -- A chain that succeeds has succeeded in its first part.
  pub >>=-eq-ok :
      (first : Res A) (rest : A → Res B) {out : B}
      → (first >>= rest) ≡ ok out
      → (mid : A) × (first ≡ ok mid) × (rest mid ≡ ok out)
  >>=-eq-ok fault rest chain = cc
  >>=-eq-ok (ok mid) rest chain = (mid, refl, chain)

-- The size of the result, where there is one.
abbrev pub Bounded : {A : Type 0} → (A → ℕ) → ℕ → Res A → Type 0
Bounded size n (ok result) = size result ≤ n
Bounded size n fault = Unit

pub >>=-Bounded :
    {A B : Type 0} (size : A → ℕ) (size' : B → ℕ) (m n : ℕ) (first : Res A) (rest : A → Res B)
    → Bounded size m first
    → ((mid : A) → size mid ≤ m → Bounded size' n (rest mid))
    → Bounded size' n (first >>= rest)
>>=-Bounded size size' m n fault rest h g = tt
>>=-Bounded size size' m n (ok mid) rest h g = g mid h

pub Res-cases : {A : Type 0} (r : Res A) → (r ≡ fault) ⊎ ((a : A) × (r ≡ ok a))
Res-cases fault = inl refl
Res-cases (ok a) = inr (a, refl)

pub ok_inj : {A : Type 0} (x y : A) → ok x ≡ ok y → x ≡ y
ok_inj x y e = cc

pub Bounded-le :
    {A : Type 0} (size : A → ℕ) (m n : ℕ) (r : Res A) → m ≤ n → Bounded size m r → Bounded size n r
Bounded-le size m n (ok a) le h = omega arith
Bounded-le size m n fault le h = tt

-- A chain takes only what its first part can give.
pub >>=-same :
    {A B : Type 0} (size : A → ℕ) (n : ℕ) (r : Res A) (f g : A → Res B)
    → Bounded size n r
    → ((a : A) → size a ≤ n → f a ≡ g a)
    → (r >>= f) ≡ (r >>= g)
>>=-same size n fault f g h e = refl
>>=-same size n (ok a) f g h e = e a h

pub any-Bounded : {A : Type 0} (r : Res A) → Bounded (λ a. 0) 0 r
any-Bounded (ok a) = omega arith
any-Bounded fault = tt

-- Two chains with the same first part agree if what follows agrees on all that it can give.
pub >>=-nest :
    {A B B' C : Type 0} (r : Res A) (f : A → Res B) (f' : A → Res B') (g : B → Res C)
    (g' : B' → Res C)
    → ((a : A) → (f a >>= g) ≡ (f' a >>= g'))
    → ((r >>= f) >>= g) ≡ ((r >>= f') >>= g')
>>=-nest fault f f' g g' h = refl
>>=-nest (ok a) f f' g g' h = h a
