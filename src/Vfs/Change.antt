-- ===== src/Vfs/Change.antt =====
-- Writes to the node store that keep it a tree.
use umka_os.Base.{
  eq-cases, ◌≤◌, ◌≡◌, ◌≢◌, refl, sym, ◌⊎◌, inl, inr, ◌∙◌, some, arith, update_self, update_other,
  subst,
}
use umka_os.Vfs.{Ptr, null, Node, Vfs, put, Live, IsLink, IsTree}

pub nodes-put_self : (v : Vfs) (p : Ptr) (n : Node) → (put v p n).nodes p ≡ some n
unfolding put
nodes-put_self v p n = update_self v.nodes p (some n)

pub nodes-put_other :
    (v : Vfs) (p : Ptr) (n : Node) (q : Ptr) → q ≢ p → (put v p n).nodes q ≡ v.nodes q
unfolding put
nodes-put_other v p n q h = update_other v.nodes p (some n) q h

pub put-cases :
    (v : Vfs) (p : Ptr) (m : Node) (q : Ptr) (k : Node)
    → (put v p m).nodes q ≡ some k
    → ((q ≡ p) × (k ≡ m)) ⊎ ((q ≢ p) × (v.nodes q ≡ some k))
put-cases v p m q k e = elim (eq-cases q p) [
  | inl h ↦ inl (h, let e' = rw h at e in cc (nodes-put_self v p m))
  | inr h ↦ inr (h, sym (nodes-put_other v p m q h) ∙ e)
]

-- `m` may replace `n` with no effect on a search that succeeded.
pub record IsKept (n m : Node) : Type 0 where
  pub filename : m.filename ≡ n.filename
  pub parent : m.parent ≡ n.parent
  pub child : n.child ≢ null → m.child ≡ n.child
  pub sibling : n.sibling ≢ null → m.sibling ≡ n.sibling

-- A change that keeps the names, and fills only null pointers.
pub record Extends (v w : Vfs) : Type 0 where
  pub fresh_le : v.fresh ≤ w.fresh
  pub same_root : w.root ≡ v.root
  pub kept :
      (p : Ptr) (n : Node) → v.nodes p ≡ some n → (m : Node) × (w.nodes p ≡ some m) × IsKept n m

pub IsKept-refl : (n : Node) → IsKept n n
IsKept-refl n = record { filename = refl; parent = refl; child = λ _. refl; sibling = λ _. refl }

pub IsKept-trans : {k n m : Node} → IsKept k n → IsKept n m → IsKept k m
IsKept-trans a b = record {
  filename = b.filename ∙ a.filename;
  parent = b.parent ∙ a.parent;
  child = λ g. b.child (λ z. g (sym (a.child g) ∙ z)) ∙ a.child g;
  sibling = λ g. b.sibling (λ z. g (sym (a.sibling g) ∙ z)) ∙ a.sibling g;
}

pub Extends-refl : (v : Vfs) → Extends v v
Extends-refl v = record {
  fresh_le = omega arith;
  same_root = refl;
  kept = λ p n e. (n, e, IsKept-refl n);
}

pub Extends-trans : {u v w : Vfs} → Extends u v → Extends v w → Extends u w
Extends-trans a b = record {
  fresh_le = omega (arith, a.fresh_le, b.fresh_le);
  same_root = b.same_root ∙ a.same_root;
  kept = λ p n e.
      let (m, f, h) = a.kept p n e in let (k, g, i) = b.kept p m f in (k, g, IsKept-trans h i);
}

pub Extends-Live : {v w : Vfs} → Extends v w → (p : Ptr) → Live v p → Live w p
Extends-Live x p (n, e) = let (m, f, _) = x.kept p n e in (m, f)

pub Extends-IsLink : {v w : Vfs} {d lo q : Ptr} → Extends v w → IsLink v d lo q → IsLink w d lo q
Extends-IsLink {q} x l =
    let (m, f, k) = x.kept q l.node l.holds in
    record { node = m; holds = f; later = l.later; parent = k.parent ∙ l.parent }

pub put-Extends :
    (v : Vfs) (p : Ptr) (n m : Node) → v.nodes p ≡ some n → IsKept n m → Extends v (put v p m)
unfolding put
put-Extends v p n m holds h = record {
  fresh_le = omega arith;
  same_root = refl;
  kept = λ q k e. elim (eq-cases q p) [
    | inl g ↦ (
      m,
      rw g (nodes-put_self v p m),
      let e' = rw g at e in let one : n ≡ k = cc in subst (λ x. IsKept x m) one h,
    )
    | inr g ↦ (k, nodes-put_other v p m q g ∙ e, IsKept-refl k)
  ];
}

module _ (v : Vfs) (p : Ptr) (n m : Node) (holds : v.nodes p ≡ some n)
    (same_parent : m.parent ≡ n.parent) where
  pub put-Live : (q : Ptr) → Live v q → Live (put v p m) q
  put-Live q (k, e) = elim (eq-cases q p) [
    | inl h ↦ rw h (m, nodes-put_self v p m)
    | inr h ↦ (k, nodes-put_other v p m q h ∙ e)
  ]

  pub put-IsLink : {d lo q : Ptr} → IsLink v d lo q → IsLink (put v p m) d lo q
  put-IsLink {d} {lo} {q} l = elim (eq-cases q p) [
    | inl h ↦ record {
      node = m;
      holds = rw h (nodes-put_self v p m);
      later = l.later;
      parent = let e = rw h at l.holds in ground (arith, l.parent);
    }
    | inr h ↦ record {
      node = l.node;
      holds = nodes-put_other v p m q h ∙ l.holds;
      later = l.later;
      parent = l.parent;
    }
  ]

  -- The node `p` may be written anew under its parent, if its pointers are good.
  pub put-IsTree :
      IsTree v
      → (m.child ≢ null → IsLink v p p m.child)
      → (m.sibling ≢ null → IsLink v m.parent p m.sibling)
      → IsTree (put v p m)
  unfolding put
  put-IsTree t good_child good_sibling = record {
    null_free = nodes-put_other v p m null (λ h. let e = rw h at t.null_free in cc) ∙ t.null_free;
    root_live = put-Live v.root t.root_live;
    below_fresh = λ q k e. elim (put-cases v p m q k e) [
      | inl (h, _) ↦ rw h (t.below_fresh p n holds)
      | inr (_, old) ↦ t.below_fresh q k old
    ];
    child_link = λ q k e g. elim (put-cases v p m q k e) [
      | inl (h, c) ↦ rw (h, c) (put-IsLink (good_child (rw c at g)))
      | inr (_, old) ↦ put-IsLink (t.child_link q k old g)
    ];
    sibling_link = λ q k e g. elim (put-cases v p m q k e) [
      | inl (h, c) ↦ rw (h, c) (put-IsLink (good_sibling (rw c at g)))
      | inr (_, old) ↦ put-IsLink (t.sibling_link q k old g)
    ];
    parent_live = λ q k e g. elim (put-cases v p m q k e) [
      | inl (h, c) ↦ rw c (
          put-Live m.parent
            (subst (Live v) (sym same_parent) (t.parent_live p n holds (λ z. g (cc)))))
      | inr (_, old) ↦ put-Live k.parent (t.parent_live q k old g)
    ];
  }
