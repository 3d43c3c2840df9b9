-- ===== src/Base/Stores.antt =====
-- A store is a function of the address; `update` writes one address.
use Prim.Native.Nat.{ℕ}
use mathlib.Core.Path.{◌≡◌}
use mathlib.Core.Logic.{◌≢◌}
use native.Mathlib.Omega.{arith}
use umka_os.Base.Tests.{◌==◌, if◌then◌else◌}

module _ {ℓ} {A : Type ℓ} where
  unfoldable pub update : (ℕ → A) → ℕ → A → ℕ → A
  update f p v q = if q == p then v else f q

  pub update_self : (f : ℕ → A) (p : ℕ) (v : A) → update f p v p ≡ v
  unfolding update
  update_self f p v = ground arith

  pub update_other : (f : ℕ → A) (p : ℕ) (v : A) (q : ℕ) → q ≢ p → update f p v q ≡ f q
  unfolding update
  update_other f p v q h = ground arith
