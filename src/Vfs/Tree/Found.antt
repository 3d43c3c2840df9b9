-- ===== src/Vfs/Tree/Found.antt =====
-- The node that `vfsAlloc` has hung into a tree is found under its name.
use umka_os.Base.{
  ℕ, zero, suc, ◌+◌, ◌<◌, ◌≡◌, ◌≢◌, sym, ◌∙◌, ◌⊎◌, inl, inr, ap, some, false, arith, ==-false,
  subst, Text, ok, if◌then◌else◌,
}
use umka_os.CString.{same}
use umka_os.Vfs.{Ptr, null, Node, Vfs, put, IsLink, IsTree}
use umka_os.Vfs.Change.{nodes-put_self, nodes-put_other}
use umka_os.Vfs.Path.{find_child, descend}
use umka_os.Vfs.Path.Search.{find_child-eq-null, find_child-next, descend-eq}
use umka_os.Vfs.Path.Total.{next-IsLink}
use umka_os.Vfs.Tree.{last_sibling, new_node, calloc_node}
use umka_os.Vfs.Tree.Grow.{IsHung, first, behind, calloc_node-fresh, calloc_node-old}
use umka_os.Vfs.Tree.Hung.{IsHung-new}

last_sibling-cases :
    (k : ℕ) (v : Vfs) (p q : Ptr) (n : Node)
    → v.nodes p ≡ some n
    → last_sibling (suc k) v p ≡ ok q
    → ((n.sibling ≡ null) × (p ≡ q)) ⊎ ((n.sibling ≢ null) × (last_sibling k v n.sibling ≡ ok q))
unfolding last_sibling
last_sibling-cases k v p q n e h = ground arith

module _ {v : Vfs} (t : IsTree v) (d : Ptr) (name : Text) where
  IsHung-fresh : {w : Vfs} → IsHung t d name w → w.fresh ≡ v.fresh + 1
  unfolding put
  IsHung-fresh (first n holds empty e) = ap (λ x. x.fresh) e ∙ calloc_node-fresh v d name
  IsHung-fresh (behind n last l holds g walk z e) = ap (λ x. x.fresh) e ∙ calloc_node-fresh v d name

  find_child-new :
      (w : Vfs) (j : ℕ) (sought : Text)
      → w.nodes v.fresh ≡ some (new_node d name)
      → 1 < j
      → v.fresh ≢ null
      → find_child j w sought v.fresh ≡ (if same name sought then ok v.fresh else ok null)
  unfolding find_child
  find_child-new w zero sought new h g = absurd (omega arith)
  find_child-new w (suc zero) sought new h g = absurd (omega arith)
  find_child-new w (suc (suc j)) sought new h g =
      rw (find_child, ==-false v.fresh null g, new) (ground arith)

  -- The search that failed before goes on from the last child to the new node.
  module _ (last : Ptr) (m : Node) (holds : v.nodes last ≡ some m) (ends : m.sibling ≡ null)
      (w : Vfs) (e : w ≡ put (calloc_node v d name) last (record m { sibling = v.fresh }))
      (new : w.nodes v.fresh ≡ some (new_node d name)) where
    at_last : w.nodes last ≡ some (record m { sibling = v.fresh })
    at_last =
        subst (λ x. x.nodes last ≡ some (record m { sibling = v.fresh })) (sym e)
          (nodes-put_self _ last _)

    at_other : (q : Ptr) (n : Node) → q ≢ last → v.nodes q ≡ some n → w.nodes q ≡ some n
    at_other q n h f =
        subst (λ x. x.nodes q ≡ some n) (sym e)
          (nodes-put_other _ last _ q h ∙ calloc_node-old t d name q n f)

    find_child-behind :
        (k j j' : ℕ) (sought : Text) {lo : Ptr} (p : Ptr)
        → IsLink v d lo p
        → last_sibling k v p ≡ ok last
        → find_child j v sought p ≡ ok null
        → v.fresh + 1 < p + j'
        → find_child j' w sought p ≡ (if same name sought then ok v.fresh else ok null)
    unfolding last_sibling find_child
    find_child-behind zero j j' sought p l walk absent enough = cc
    find_child-behind (suc k) zero j' sought p l walk absent enough = cc
    find_child-behind (suc k) (suc j) zero sought p l walk absent enough =
        absurd (omega (arith, t.below_fresh p l.node l.holds))
    find_child-behind (suc k) (suc j) (suc j') sought p l walk absent enough =
        let (differs, rest) = find_child-eq-null j v sought p l.node l.holds ne absent in
        elim (last_sibling-cases k v p last l.node l.holds walk) [
          | inl (z, same_p) ↦
              let one : l.node ≡ m = let e₁ = rw same_p at l.holds in cc in
              find_child-next j' w sought p (record m { sibling = v.fresh }) (rw same_p at_last) ne
                (subst (λ x. same x.filename sought ≡ false) one differs)
              ∙ find_child-new w j' sought new (omega (arith, inside)) (λ h. omega (arith, inside))
          | inr (more, onward) ↦
              let n = next-IsLink t l more in
              let apart = λ (h : p ≡ last). more (let e₁ = rw h at l.holds in cc) in
              find_child-next j' w sought p l.node (at_other p l.node apart l.holds) ne differs
              ∙ find_child-behind k j j' sought {lo = p} l.node.sibling n onward rest
                  (omega (arith, n.later))
        ]
      where
        ne : p ≢ null
        ne h = omega (arith, l.later)

        inside : p < v.fresh
        inside = t.below_fresh p l.node l.holds

  -- A name that a search of `d` did not find is found now if it is the name of the new node.
  pub IsHung-descend :
      {w : Vfs} (sought : Text)
      → IsHung t d name w
      → descend v d sought ≡ ok null
      → descend w d sought ≡ (if same name sought then ok v.fresh else ok null)
  IsHung-descend {w} sought (first n holds empty e) absent =
      let inside = t.below_fresh d n holds in
      let hung = first n holds empty e in
      let at_d =
        subst (λ x. x.nodes d ≡ some (record n { child = v.fresh })) (sym e)
          (nodes-put_self _ d _) in
      descend-eq w d sought _ at_d
      ∙ find_child-new w (suc w.fresh) sought (IsHung-new t d name hung)
          (omega (arith, IsHung-fresh hung)) (λ h. omega arith)
  IsHung-descend {w} sought (behind n last l holds g walk z e) absent =
      let hung = behind n last l holds g walk z e in
      let new = IsHung-new t d name hung in
      let at_d = at_other last l.node l.holds z w e new d n (λ h. omega (arith, l.later)) holds in
      let link = t.child_link d n holds g in
      descend-eq w d sought n at_d
      ∙ find_child-behind last l.node l.holds z w e new (suc (calloc_node v d name).fresh)
          (suc v.fresh) (suc w.fresh) sought {lo = d} n.child link walk
          (sym (descend-eq v d sought n holds) ∙ absent)
          (omega (arith, link.later, IsHung-fresh hung))
