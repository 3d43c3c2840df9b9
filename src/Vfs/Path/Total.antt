-- ===== src/Vfs/Path/Total.antt =====
-- A walk over a tree follows no dangling pointer and ends: its fuel is enough.
use umka_os.Base.{
  ℕ, zero, suc, ◌+◌, ◌≤◌, ◌<◌, ◌≡◌, ◌≢◌, refl, inl, inr, Bool, List, [], ◌∷◌, arith, length,
  Bool-cases, Text, codes, Res, ok, ==-false, subst, zero-cases, le→not_ltb,
}
use umka_os.CString.{same}
use umka_os.Vfs.{Ptr, null, Vfs, Live, IsLink, IsTree}
use umka_os.Vfs.Path.{find_child, descend, ascend, step, walk, cut, get_path, max_sub}

-- The pointer that a search returns: null, or a node below `d`.
abbrev pub Lands : Vfs → Ptr → Ptr → Res Ptr → Type 0
Lands v d lo r = (q : Ptr) × (r ≡ ok q) × (q ≢ null → IsLink v d lo q)

abbrev pub Arrives : Vfs → Res Ptr → Type 0
Arrives v r = (q : Ptr) × (r ≡ ok q) × (q ≢ null → Live v q)

pub later-IsLink : {v : Vfs} {d lo p q : Ptr} → lo ≤ p → IsLink v d p q → IsLink v d lo q
later-IsLink h l = record { node = node; holds = holds; later = omega arith; parent = parent }
  where
    open l use {node, holds, later, parent}

module _ {v : Vfs} (t : IsTree v) where
  open t use {below_fresh, child_link, sibling_link, parent_live, root_live}

  pub next-IsLink :
      {d lo p : Ptr} (l : IsLink v d lo p) → l.node.sibling ≢ null → IsLink v d p l.node.sibling
  next-IsLink {p} l h =
      subst (λ e. IsLink v e p l.node.sibling) l.parent (sibling_link p l.node l.holds h)

  pub find_child-Lands :
      (k : ℕ) (name : Text) {d lo : Ptr} (p : Ptr)
      → (p ≢ null → IsLink v d lo p)
      → 0 < k
      → (p ≢ null → v.fresh < p + k)
      → Lands v d lo (find_child k v name p)
  unfolding find_child
  find_child-Lands zero name p link pos enough = absurd (omega arith)
  find_child-Lands (suc k) name {d} {lo} p link pos enough = elim (zero-cases p) [
    | inl e ↦ rw e (null, refl, λ h. absurd (h refl))
    | inr h ↦
        let l = link h in
        let inside = below_fresh p l.node l.holds in
        let room = enough h in
        rw (==-false p null h, l.holds, find_child)
          (elim (Bool-cases (same l.node.filename name)) [
            | inl s ↦ rw s (p, refl, λ _. l)
            | inr s ↦
                let (q, e, r) =
                  find_child-Lands k name {lo = p} l.node.sibling (next-IsLink l) (omega arith)
                    (λ g. let later = (next-IsLink l g).later in omega arith) in
                rw s (q, e, λ g. later-IsLink {p = p} (omega (arith, l.later)) (r g))
          ])
  ]

  pub descend-Lands : (name : Text) (p : Ptr) → Live v p → Lands v p p (descend v p name)
  unfolding descend
  descend-Lands name p (n, holds) =
      rw (holds, descend)
        (find_child-Lands (suc v.fresh) name n.child (child_link p n holds) (omega arith)
          (λ g. omega (arith, (child_link p n holds g).later)))

  -- One round of the walk ends, at null or at a node.
  pub step-Arrives : (p : Ptr) (name : Text) → Live v p → Arrives v (step v p name)
  unfolding step ascend
  step-Arrives p name (n, holds) = elim (Bool-cases (same name (codes ".."))) [
    | inl up ↦ rw (up, holds, ascend) (n.parent, refl, parent_live p n holds)
    | inr a ↦ rw a (elim (Bool-cases (same name (codes "."))) [
      | inl stay ↦ rw stay (p, refl, λ _. (n, holds))
      | inr b ↦ rw b (elim (Bool-cases (same name [])) [
        | inl stay ↦ rw stay (p, refl, λ _. (n, holds))
        | inr c ↦
            let (q, e, r) = descend-Lands name p (n, holds) in
            rw (c, e) (q, refl, λ g. let l = r g in (l.node, l.holds))
      ])
    ])
  ]

  pub walk-Arrives : (p : Ptr) (names : List Text) → Live v p → Arrives v (walk v p names)
  unfolding walk
  walk-Arrives p [] live = (p, refl, λ _. live)
  walk-Arrives p (name ∷ names) live = elim (zero-cases q) [
    | inl g ↦ rw (e, g) (null, refl, λ h. absurd (h refl))
    | inr g ↦ rw (e, ==-false q null g) (walk-Arrives q names (r g))
  ]
    where
      arrival : Arrives v (step v p name)
      arrival = step-Arrives p name live

      q : Ptr
      q = arrival.0

      e : step v p name ≡ ok q
      e = arrival.1

      r : q ≢ null → Live v q
      r = arrival.2

  -- In a tree a path of at most 32 components is looked up with no fault and within the fuel: the
  -- result is null or a node.
  pub get_path-Arrives :
      (path : Text) (base : Bool)
      → length (cut path []) ≤ max_sub
      → Arrives v (get_path v path base)
  unfolding get_path
  get_path-Arrives path base short = rw (le→not_ltb _ _ short) (walk-Arrives v.root _ root_live)
