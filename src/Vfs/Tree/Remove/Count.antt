-- ===== src/Vfs/Tree/Remove/Count.antt =====
-- How many nodes can be below a node, and that they are a forest at all.
use umka_os.Base.{
  ℕ, zero, suc, ◌+◌, ◌-◌, ◌<◌, ◌≤◌, ◌≡◌, ◌≢◌, refl, sym, ◌⊎◌, inl, inr, arith, ltb, le→not_ltb,
  lt→ltb, if◌then◌else◌, eq-cases, zero-cases,
}
use umka_os.Vfs.{Ptr, null, Vfs, IsLink, IsTree}
use umka_os.Vfs.Path.Total.{next-IsLink}
use umka_os.Vfs.Tree.Remove.Forest.{Forest, bare, grows, size, Hangs, Avoids, Disjoint, Separate}
use umka_os.Vfs.Tree.Remove.Subtree.{All}

-- How many nodes of the forest are numbers below `n`.
abbrev below : ℕ → Forest → ℕ
below n bare = 0
below n (grows p inner rest) = (if ltb p n then 1 else 0) + below n inner + below n rest

below-Avoids : (n : ℕ) (f : Forest) → Avoids n f → below (suc n) f ≡ below n f
below-Avoids n bare h = refl
below-Avoids n (grows p inner rest) (ne, h, g) =
    let i = below-Avoids n inner h in let r = below-Avoids n rest g in ground arith

-- A node cannot be in both of two forests.
Disjoint-cases : (n : ℕ) (e f : Forest) → Disjoint e f → Avoids n f ⊎ Avoids n e
Disjoint-cases n e bare h = inl tt
Disjoint-cases n e (grows p inner rest) (away, h, g) = elim (eq-cases n p) [
  | inl same ↦ inr (rw same away)
  | inr ne ↦ elim (Disjoint-cases n e inner h) [
    | inr a ↦ inr a
    | inl a ↦ elim (Disjoint-cases n e rest g) [ inr b ↦ inr b | inl b ↦ inl (ne, a, b) ]
  ]
]

below-suc : (n : ℕ) (f : Forest) → Separate f → below (suc n) f ≤ below n f + 1
below-suc n bare h = omega arith
below-suc n (grows p inner rest) (p_inner, p_rest, apart, apart', h, g) = elim (eq-cases p n) [
  | inl same ↦
      let i = below-Avoids n inner (rw (sym same) p_inner) in
      let r = below-Avoids n rest (rw (sym same) p_rest) in ground arith
  | inr ne ↦ elim (Disjoint-cases n inner rest apart) [
    | inl a ↦ let r = below-Avoids n rest a in let i = below-suc n inner h in ground arith
    | inr a ↦ let i = below-Avoids n inner a in let r = below-suc n rest g in ground arith
  ]
]

below-none : (lo : ℕ) (f : Forest) → All (λ r. lo ≤ r) f → below lo f ≡ 0
below-none lo bare h = refl
below-none lo (grows p inner rest) (le, h, g) =
    let i = below-none lo inner h in
    let r = below-none lo rest g in rw (le→not_ltb lo p le) (omega arith)

below-All : (n : ℕ) (f : Forest) → All (λ r. r < n) f → below n f ≡ size f
below-All n bare h = refl
below-All n (grows p inner rest) (lt, h, g) =
    let i = below-All n inner h in let r = below-All n rest g in rw (lt→ltb p n lt) (omega arith)

below-le : (lo n : ℕ) (f : Forest) → Separate f → All (λ r. lo ≤ r) f → below (lo + n) f ≤ n
below-le lo zero f h g =
    let start : lo + 0 ≡ lo = omega arith in
    let none_yet = below-none lo f g in rw start (omega arith)
below-le lo (suc n) f h g =
    let next : lo + suc n ≡ suc (lo + n) = omega arith in
    let so_far = below-le lo n f h g in let one = below-suc (lo + n) f h in rw next (omega arith)

-- A forest of different nodes from 1 to below `n` has fewer than `n` nodes.
pub size-lt :
    (n : ℕ) (f : Forest) → 0 < n → Separate f → All (λ r. 1 ≤ r) f → All (λ r. r < n) f → size f < n
size-lt n f pos h g k =
    let all = below-All n f k in
    let whole : 1 + (n - 1) ≡ n = omega arith in
    let few = rw whole at (below-le 1 (n - 1) f h g) in omega arith

module _ {v : Vfs} (t : IsTree v) where
  -- The list from `c` on is a forest.
  pub forest_of :
      (k : ℕ) (d lo c : Ptr)
      → (c ≢ null → IsLink v d lo c)
      → 0 < k
      → (c ≢ null → v.fresh < c + k)
      → (f : Forest) × Hangs v d c f
  forest_of zero d lo c link some enough = absurd (omega arith)
  forest_of (suc k) d lo c link some enough = elim (zero-cases c) [
    | inl e ↦ (bare, e)
    | inr ne ↦
        let l = link ne in
        let room = enough ne in
        let inside = t.below_fresh c l.node l.holds in
        let (inner, h) =
          forest_of k c c l.node.child (t.child_link c l.node l.holds) (omega arith)
            (λ g. omega (arith, (t.child_link c l.node l.holds g).later)) in
        let (rest, g) =
          forest_of k d c l.node.sibling (next-IsLink t l) (omega arith)
            (λ g. omega (arith, (next-IsLink t l g).later)) in
        (grows c inner rest, (refl, ne, (l.node, l.holds, l.parent, h, g)))
  ]
