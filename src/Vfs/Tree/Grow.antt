-- ===== src/Vfs/Tree/Grow.antt =====
-- `vfsAlloc` keeps the tree, and hangs the new node below its directory.
use umka_os.Base.{
  eq-cases, ℕ, zero, suc, ◌+◌, ◌<◌, ◌≡◌, ◌≢◌, refl, sym, ◌∙◌, ◌⊎◌, inl, inr, some, arith, ==-false,
  Text, ok, zero-cases, update_self, update_other,
}
use umka_os.Vfs.{Ptr, null, Node, Vfs, put, Live, IsLink, IsTree}
use umka_os.Vfs.Change.{IsKept-refl, Extends, Extends-Live, Extends-IsLink}
use umka_os.Vfs.Path.Total.{next-IsLink}
use umka_os.Vfs.Tree.{last_sibling, set_child, set_sibling, attach, new_node, calloc_node}

pub calloc_node-fresh :
    (v : Vfs) (d : Ptr) (name : Text) → (calloc_node v d name).fresh ≡ v.fresh + 1
unfolding calloc_node
calloc_node-fresh v d name = refl

module _ {v : Vfs} (t : IsTree v) where
  -- The walk to the last child ends, at a node with no sibling.
  last_sibling-ends :
      (k : ℕ) {d lo : Ptr} (p : Ptr)
      → IsLink v d lo p
      → v.fresh < p + k
      → (q : Ptr) × (last_sibling k v p ≡ ok q) × (l : IsLink v d lo q) × (l.node.sibling ≡ null)
  unfolding last_sibling
  last_sibling-ends zero p l enough = absurd (omega (arith, t.below_fresh p l.node l.holds))
  last_sibling-ends (suc k) p l enough = elim (zero-cases l.node.sibling) [
    | inl e ↦ rw (last_sibling, l.holds, e) (p, refl, l, e)
    | inr h ↦
        let m = next-IsLink t l h in
        let (q, e, r, z) = last_sibling-ends k {lo = p} l.node.sibling m (omega (arith, m.later)) in
        rw (last_sibling, l.holds, ==-false l.node.sibling null h)
          (
            q,
            e,
            record {
              node = r.node;
              holds = r.holds;
              later = omega (arith, l.later, r.later);
              parent = r.parent;
            },
            z,
          )
  ]

  -- The new node is not among the nodes that are linked so far.
  pub calloc_node-old :
      (d : Ptr) (name : Text) (p : Ptr) (n : Node)
      → v.nodes p ≡ some n
      → (calloc_node v d name).nodes p ≡ some n
  unfolding calloc_node
  calloc_node-old d name p n e =
      let lt = t.below_fresh p n e in update_other v.nodes v.fresh _ p (λ h. omega arith) ∙ e

  pub calloc_node-new :
      (d : Ptr) (name : Text) → (calloc_node v d name).nodes v.fresh ≡ some (new_node d name)
  unfolding calloc_node
  calloc_node-new d name = update_self v.nodes v.fresh _

  pub calloc_node-cases :
      (d : Ptr) (name : Text) (q : Ptr) (k : Node)
      → (calloc_node v d name).nodes q ≡ some k
      → ((q ≡ v.fresh) × (k ≡ new_node d name)) ⊎ (v.nodes q ≡ some k)
  unfolding calloc_node
  calloc_node-cases d name q k e = elim (eq-cases q v.fresh) [
    | inl h ↦ inl (h, let e' = rw h at e in cc (calloc_node-new d name))
    | inr h ↦ inr (sym (update_other v.nodes v.fresh _ q h) ∙ e)
  ]

  pub calloc_node-Extends : (d : Ptr) (name : Text) → Extends v (calloc_node v d name)
  unfolding calloc_node
  calloc_node-Extends d name = record {
    fresh_le = omega arith;
    same_root = refl;
    kept = λ p n e. (n, calloc_node-old d name p n e, IsKept-refl n);
  }

  pub calloc_node-IsTree : (d : Ptr) (name : Text) → Live v d → IsTree (calloc_node v d name)
  unfolding calloc_node
  calloc_node-IsTree d name live = record {
    null_free =
        update_other v.nodes v.fresh _ null
          (λ h. omega (arith, t.below_fresh v.root (t.root_live).0 (t.root_live).1))
        ∙ t.null_free;
    root_live = Extends-Live x v.root t.root_live;
    below_fresh = λ q k e. elim (calloc_node-cases d name q k e) [
      | inl (h, _) ↦ omega arith
      | inr old ↦ omega (arith, t.below_fresh q k old)
    ];
    child_link = λ q k e g. elim (calloc_node-cases d name q k e) [
      | inl (h, c) ↦ absurd (g (cc))
      | inr old ↦ Extends-IsLink x (t.child_link q k old g)
    ];
    sibling_link = λ q k e g. elim (calloc_node-cases d name q k e) [
      | inl (h, c) ↦ absurd (g (cc))
      | inr old ↦ Extends-IsLink x (t.sibling_link q k old g)
    ];
    parent_live = λ q k e g. elim (calloc_node-cases d name q k e) [
      | inl (h, c) ↦ rw c (Extends-Live x d live)
      | inr old ↦ Extends-Live x k.parent (t.parent_live q k old g)
    ];
  }
    where
      x : Extends v (calloc_node v d name)
      x = calloc_node-Extends d name

  last_sibling-calloc_node :
      (k : ℕ) (d' : Ptr) (name : Text) {d lo : Ptr} (p : Ptr)
      → IsLink v d lo p
      → last_sibling k (calloc_node v d' name) p ≡ last_sibling k v p
  unfolding last_sibling
  last_sibling-calloc_node zero d' name p l = refl
  last_sibling-calloc_node (suc k) d' name p l =
      rw (last_sibling, calloc_node-old d' name p l.node l.holds, l.holds)
        (elim (zero-cases l.node.sibling) [
          | inl e ↦ rw e refl
          | inr h ↦
              rw (==-false l.node.sibling null h)
                (last_sibling-calloc_node k d' name {lo = p} l.node.sibling (next-IsLink t l h))
        ])

  -- Where `attach` puts the new node: behind the last child, or as the first.
  pub data IsHung (d : Ptr) (name : Text) (w : Vfs) : Type 0 where
    first :
        (n : Node)
        → v.nodes d ≡ some n
        → n.child ≡ null
        → w ≡ put (calloc_node v d name) d (record n { child = v.fresh })
        → IsHung d name w
    behind :
        (n : Node) (last : Ptr) (l : IsLink v d d last)
        → v.nodes d ≡ some n
        → n.child ≢ null
        → last_sibling (suc (calloc_node v d name).fresh) v n.child ≡ ok last
        → l.node.sibling ≡ null
        → w ≡ put (calloc_node v d name) last (record l.node { sibling = v.fresh })
        → IsHung d name w

  pub attach-IsHung :
      (d : Ptr) (name : Text)
      → Live v d
      → (w : Vfs) × (attach (calloc_node v d name) d v.fresh ≡ ok w) × IsHung d name w
  unfolding attach set_child set_sibling
  attach-IsHung d name (n, holds) = elim (zero-cases n.child) [
    | inl e ↦ (
      put (calloc_node v d name) d (record n { child = v.fresh }),
      rw (attach, calloc_node-old d name d n holds, e, set_child, calloc_node-old d name d n holds)
          refl,
      first n holds e refl,
    )
    | inr g ↦
        let link = t.child_link d n holds g in
        let (last, e, l, z) =
          last_sibling-ends (suc (calloc_node v d name).fresh) n.child link
            (omega (arith, link.later, calloc_node-fresh v d name)) in
        (
          put (calloc_node v d name) last (record l.node { sibling = v.fresh }),
          rw
              (
                attach,
                calloc_node-old d name d n holds,
                ==-false n.child null g,
                last_sibling-calloc_node (suc (calloc_node v d name).fresh) d name n.child link,
                e,
                set_sibling,
                calloc_node-old d name last l.node l.holds,
              )
              refl,
          behind n last l holds g e z refl,
        )
  ]
