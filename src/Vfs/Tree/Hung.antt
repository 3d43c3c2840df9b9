-- ===== src/Vfs/Tree/Hung.antt =====
-- What a tree is like once `vfsAlloc` has hung a node into it.
use umka_os.Base.{◌≡◌, refl, sym, ◌∙◌, some, arith, subst, Text}
use umka_os.Vfs.{Ptr, Node, Vfs, put, Live, IsLink, IsTree}
use umka_os.Vfs.Change.{
  IsKept, Extends, Extends-trans, Extends-IsLink, put-Extends, put-IsTree, nodes-put_other,
}
use umka_os.Vfs.Tree.{new_node, calloc_node}
use umka_os.Vfs.Tree.Grow.{
  IsHung, first, behind, calloc_node-old, calloc_node-new, calloc_node-Extends, calloc_node-IsTree,
}

module _ {v : Vfs} (t : IsTree v) (d : Ptr) (name : Text) where
  -- The new node, seen from an older one.
  new-IsLink : (p : Ptr) (n : Node) → v.nodes p ≡ some n → IsLink (calloc_node v d name) d p v.fresh
  new-IsLink p n e = record {
    node = new_node d name;
    holds = calloc_node-new t d name;
    later = t.below_fresh p n e;
    parent = refl;
  }

  -- Writing the one null pointer of an old node.
  module _ (p : Ptr) (n m : Node) (holds : v.nodes p ≡ some n) (kept : IsKept n m) where
    link-Extends : Extends v (put (calloc_node v d name) p m)
    link-Extends =
        Extends-trans (calloc_node-Extends t d name)
          (put-Extends _ p n m (calloc_node-old t d name p n holds) kept)

    link-new : (put (calloc_node v d name) p m).nodes v.fresh ≡ some (new_node d name)
    link-new =
        nodes-put_other _ p m v.fresh (λ h. omega (arith, t.below_fresh p n holds))
        ∙ calloc_node-new t d name

  pub IsHung-Extends : {w : Vfs} → IsHung t d name w → Extends v w
  IsHung-Extends (first n holds empty e) = subst (Extends v) (sym e) (
      link-Extends d n _ holds (record {
        filename = refl;
        parent = refl;
        child = λ g. absurd (g empty);
        sibling = λ g. refl;
      }))
  IsHung-Extends (behind n last l holds g e z f) = subst (Extends v) (sym f) (
      link-Extends last l.node _ l.holds
        (record { filename = refl; parent = refl; child = λ g. refl; sibling = λ g. absurd (g z) }))

  pub IsHung-new : {w : Vfs} → IsHung t d name w → w.nodes v.fresh ≡ some (new_node d name)
  IsHung-new (first n holds empty e) =
      subst (λ x. x.nodes v.fresh ≡ some (new_node d name)) (sym e)
        (link-new d n _ holds (record {
          filename = refl;
          parent = refl;
          child = λ g. absurd (g empty);
          sibling = λ g. refl;
        }))
  IsHung-new (behind n last l holds g e z f) =
      subst (λ x. x.nodes v.fresh ≡ some (new_node d name)) (sym f)
        (link-new last l.node _ l.holds (record {
          filename = refl;
          parent = refl;
          child = λ g. refl;
          sibling = λ g. absurd (g z);
        }))

  pub IsHung-IsTree : {w : Vfs} → Live v d → IsHung t d name w → IsTree w
  IsHung-IsTree live (first n holds empty e) = subst IsTree (sym e) (
      put-IsTree _ d n _ (calloc_node-old t d name d n holds) refl
        (calloc_node-IsTree t d name live) (λ _. new-IsLink d n holds)
        (λ g. Extends-IsLink (calloc_node-Extends t d name) (t.sibling_link d n holds g)))
  IsHung-IsTree live (behind n last l holds g e z f) = subst IsTree (sym f) (
      put-IsTree _ last l.node _ (calloc_node-old t d name last l.node l.holds) refl
        (calloc_node-IsTree t d name live)
        (λ h. Extends-IsLink (calloc_node-Extends t d name) (t.child_link last l.node l.holds h))
        (λ _.
          subst (λ x. IsLink (calloc_node v d name) x last v.fresh) (sym l.parent)
            (new-IsLink last l.node l.holds)))
