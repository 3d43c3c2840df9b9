-- ===== src/Vfs/Tree/Remove.antt =====
-- What taking a node off the list of its directory leaves, the first step of `vfsRemove`.
pub mod Chain
pub mod Forest
pub mod Subtree
pub mod Count
pub mod Whole
pub mod Tests
use umka_os.Base.{
  ℕ, zero, suc, ◌+◌, ◌-◌, ◌*◌, ◌<◌, ◌≡◌, ◌≢◌, refl, sym, ◌∙◌, ap, inl, inr, true, false, none, some,
  List, [], ◌∷◌, ◌++◌, arith, ◌==◌, ==-false, eq-cases, length, subst, length-append, Res, ok,
  update_self, update_other, Text, Option,
}
use umka_os.Vfs.{Ptr, null, Node, Vfs, put, IsTree}
use umka_os.Vfs.Change.{nodes-put_self, nodes-put_other}
use umka_os.Vfs.Path.{get_path}
use umka_os.Vfs.Listing.Visible.{Siblings}
use umka_os.Vfs.Tree.{
  set_child, set_sibling, unlink, detach, free, free_children, drop_node, remove,
}
use umka_os.Vfs.Tree.Remove.Chain.{
  Increasing, Increasing-lt, Siblings-Increasing, Increasing-behind, some_inj, last_or, relink,
  unlink-relink, Siblings-agree, last_or-gt, last_or-lt, Siblings-without, Siblings-last,
  nodes-drop_other, nodes-drop_self,
}

module _ {v : Vfs} (t : IsTree v) (d node : Ptr) (dn n : Node) (pre post : List Ptr)
    (at_d : v.nodes d ≡ some dn) (at_node : v.nodes node ≡ some n) (child_of : n.parent ≡ d)
    (s : Siblings v dn.child (pre ++ node ∷ post)) where
  pub order : Increasing d v.fresh (pre ++ node ∷ post)
  order =
      Siblings-Increasing t (pre ++ node ∷ post) d dn.child (λ g. (t.child_link d dn at_d g).later)
        (t.below_fresh d dn at_d) s

  pub detach-relink : detach v node n ≡ relink v d (last_or null pre) n.sibling
  unfolding detach
  detach-relink =
      let real : n.parent ≢ null =
        λ z. none_some dn (sym t.null_free ∙ ap v.nodes (sym z ∙ child_of) ∙ at_d) in
      let at_parent : v.nodes n.parent ≡ some dn = ap v.nodes child_of ∙ at_d in
      let few = Increasing-lt d v.fresh (pre ++ node ∷ post) order in
      rw (==-false n.parent null real, at_parent)
        (ap (λ p. unlink (suc v.fresh) v p node null dn.child) child_of
          ∙ unlink-relink (suc v.fresh) v d node null dn.child pre post n d v.fresh at_node s order
              (omega (arith, length-append pre (node ∷ post))))
    where
      none_some : (m : Node) → ◌≢◌ {A = Option Node} none (some m)
      none_some m e = cc

  -- The store after `node` has been unlinked: its list, and what the other nodes keep.
  abbrev pub Unlinked : Vfs → Ptr → Node → Type 0
  Unlinked w q k =
      (detach v node n ≡ ok w)
      × (w.nodes node ≡ some n)
      × ((dm : Node) × (w.nodes d ≡ some dm) × Siblings (drop_node w node) dm.child (pre ++ post))
      × ((m : Node) × (w.nodes q ≡ some m) × (m.filename ≡ k.filename) × (m.content ≡ k.content))

-- What a node keeps when `p` is written with a node that differs in its pointers.
kept-put :
    (v : Vfs) (p q : Ptr) (old new k : Node)
    → v.nodes p ≡ some old
    → new.filename ≡ old.filename
    → new.content ≡ old.content
    → v.nodes q ≡ some k
    → (m : Node) × ((put v p new).nodes q ≡ some m)
      × (m.filename ≡ k.filename)
      × (m.content ≡ k.content)
kept-put v p q old new k at_p name bytes at_q = elim (eq-cases q p) [
  | inr ne ↦ (k, nodes-put_other v p new q ne ∙ at_q, refl, refl)
  | inl e ↦
      let same : old ≡ k = some_inj old k (sym at_p ∙ ap v.nodes (sym e) ∙ at_q) in
      (
        new,
        ap (put v p new).nodes e ∙ nodes-put_self v p new,
        name ∙ ap (λ z. z.filename) same,
        bytes ∙ ap (λ z. z.content) same,
      )
]

pub relink-sibling :
    (v : Vfs) (d p q : Ptr) (old : Node)
    → p ≢ null
    → v.nodes p ≡ some old
    → relink v d p q ≡ ok (put v p (record old { sibling = q }))
unfolding set_sibling
relink-sibling v d p q old real at_p = rw (relink, ==-false p null real, set_sibling, at_p) refl

pub unlinked :
    {v : Vfs} (t : IsTree v) (d node : Ptr) (dn n : Node) (pre post : List Ptr) (q : Ptr) (k : Node)
    (at_d : v.nodes d ≡ some dn) (at_node : v.nodes node ≡ some n) (child_of : n.parent ≡ d)
    (s : Siblings v dn.child (pre ++ node ∷ post))
    → v.nodes q ≡ some k
    → (w : Vfs) × Unlinked t d node dn n pre post at_d at_node child_of s w q k
unfolding set_child set_sibling
unlinked {v} t d node dn n [] post q k at_d at_node child_of s at_q =
    let inc = order t d node dn n [] post at_d at_node child_of s in
    let (at_child, pos, (n', holds', s')) = s in
    let rest : Siblings v n.sibling post =
      subst (λ z. Siblings v z.sibling post) (some_inj n' n (sym holds' ∙ at_node)) s' in
    let new : Node = record dn { child = n.sibling } in
    let w : Vfs = put v d new in
    let apart : node ≢ d = λ z. omega (arith, inc.0) in
    let first : set_child v d n.sibling ≡ ok w = rw (set_child, at_d) refl in
    (
      w,
      (
        detach-relink t d node dn n [] post at_d at_node child_of s ∙ first,
        nodes-put_other v d new node apart ∙ at_node,
        (
          new,
          nodes-put_self v d new,
          Siblings-agree v (drop_node w node) node v.fresh n.sibling post
              (λ r h.
                nodes-drop_other w node r (λ z. omega arith)
                ∙ nodes-put_other v d new r (λ z. omega (arith, inc.0)))
              inc.1 rest,
        ),
        kept-put v d q dn new k at_d refl refl at_q,
      ),
    )
unlinked {v} t d node dn n (x ∷ pre) post q k at_d at_node child_of s at_q =
    let inc = order t d node dn n (x ∷ pre) post at_d at_node child_of s in
    let p = last_or x pre in
    let (old, at_p) = Siblings-last v dn.child x pre (node ∷ post) s in
    let new : Node = record old { sibling = n.sibling } in
    let w : Vfs = put v p new in
    let low = last_or-gt d v.fresh x pre (node ∷ post) inc in
    let high = last_or-lt d v.fresh x node pre post inc in
    let real : p ≢ null = λ z. omega arith in
    let node_apart : node ≢ p = λ z. omega arith in
    let d_apart : d ≢ p = λ z. omega arith in
    let p_apart : p ≢ node = λ z. omega arith in
    (
      w,
      (
        detach-relink t d node dn n (x ∷ pre) post at_d at_node child_of s
            ∙ relink-sibling v d p n.sibling old real at_p,
        nodes-put_other v p new node node_apart ∙ at_node,
        (
          dn,
          nodes-put_other v p new d d_apart ∙ at_d,
          Siblings-without v (drop_node w node) d v.fresh dn.child x node pre post n old
              (λ r not_p not_node.
                nodes-drop_other w node r not_node ∙ nodes-put_other v p new r not_p)
              at_p (nodes-drop_other w node p p_apart ∙ nodes-put_self v p new) at_node inc s,
        ),
        kept-put v p q old new k at_p refl refl at_q,
      ),
    )
