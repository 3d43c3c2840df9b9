-- ===== src/Vfs/Tree/Remove/Subtree.antt =====
-- In a tree the nodes below a node are a forest, in which every node is once.
use umka_os.Base.{◌<◌, ◌≤◌, ◌≡◌, ◌≢◌, refl, sym, ◌∙◌, arith, subst, Text}
use umka_os.Vfs.{Ptr, null, Vfs, IsLink, IsTree}
use umka_os.Vfs.Tree.Child.{IsChild}
use umka_os.Vfs.Tree.Below.{Below, here, Below-le, Below-trans, IsChild-Below, child_unique}
use umka_os.Vfs.Tree.Remove.Forest.{Forest, bare, grows, Hangs, Avoids, Disjoint, Separate}

abbrev pub All : (Ptr → Type 0) → Forest → Type 0
All P bare = Unit
All P (grows p inner rest) = P p × All P inner × All P rest

pub All-map : (P Q : Ptr → Type 0) (f : Forest) → ((r : Ptr) → P r → Q r) → All P f → All Q f
All-map P Q bare to h = tt
All-map P Q (grows p inner rest) to (h, g, k) =
    (to p h, All-map P Q inner to g, All-map P Q rest to k)

pub All-Avoids :
    (P : Ptr → Type 0) (q : Ptr) (f : Forest) → ((r : Ptr) → P r → q ≢ r) → All P f → Avoids q f
All-Avoids P q bare to h = tt
All-Avoids P q (grows p inner rest) to (h, g, k) =
    (to p h, All-Avoids P q inner to g, All-Avoids P q rest to k)

All-Disjoint :
    (P : Ptr → Type 0) (e f : Forest) → ((r : Ptr) → P r → Avoids r e) → All P f → Disjoint e f
All-Disjoint P e bare to h = tt
All-Disjoint P e (grows p inner rest) to (h, g, k) =
    (to p h, All-Disjoint P e inner to g, All-Disjoint P e rest to k)

-- The node is a child of `d` that was made after `lo`, or below one.
abbrev pub UnderChild : Vfs → Ptr → Ptr → Ptr → Type 0
UnderChild v d lo r = (q : Ptr) × (name : Text) × IsChild v d name q × (lo < q) × Below v q r

-- Of a child of `d` and a node that is not null, a link.
module _ {v : Vfs} (t : IsTree v) where
  link-IsChild : {d lo p : Ptr} → d ≤ lo → (l : IsLink v d lo p) → IsChild v d l.node.filename p
  link-IsChild le l = record {
    node = l.node;
    holds = l.holds;
    later = omega (arith, l.later);
    parent = l.parent;
    filename = refl;
  }

  pub Hangs-UnderChild :
      (f : Forest) (d lo c : Ptr)
      → d ≤ lo
      → (c ≢ null → IsLink v d lo c)
      → Hangs v d c f
      → All (UnderChild v d lo) f
  Hangs-UnderChild bare d lo c le link h = tt
  Hangs-UnderChild (grows p inner rest) d lo c le link (at_p, some_node, (n, holds, up, h, g)) =
      let l = link (λ e. some_node (sym at_p ∙ e)) in
      let child = subst (λ q. IsChild v d l.node.filename q) at_p (link-IsChild le l) in
      let after : lo < p = omega (arith, l.later) in
      (
        (p, l.node.filename, child, after, here),
        All-map (UnderChild v p p) (UnderChild v d lo) inner
            (λ r (q, name, y, lt, b).
              (p, l.node.filename, child, after, Below-trans (IsChild-Below y) b))
            (Hangs-UnderChild inner p p n.child (omega arith) (t.child_link p n holds) h),
        All-map (UnderChild v d p) (UnderChild v d lo) rest
            (λ r (q, name, y, lt, b). (q, name, y, omega arith, b))
            (Hangs-UnderChild rest d p n.sibling (omega arith)
              (λ ne. subst (λ e. IsLink v e p n.sibling) up (t.sibling_link p n holds ne)) g),
      )

  pub Hangs-Separate :
      (f : Forest) (d lo c : Ptr)
      → d ≤ lo
      → (c ≢ null → IsLink v d lo c)
      → Hangs v d c f
      → Separate f
  Hangs-Separate bare d lo c le link h = tt
  Hangs-Separate (grows p inner rest) d lo c le link (at_p, some_node, (n, holds, up, h, g)) =
      let l = link (λ e. some_node (sym at_p ∙ e)) in
      let child = subst (λ q. IsChild v d l.node.filename q) at_p (link-IsChild le l) in
      let next = λ (ne : n.sibling ≢ null).
        subst (λ e. IsLink v e p n.sibling) up (t.sibling_link p n holds ne) in
      let before : d ≤ p = omega (arith, l.later) in
      let in_ = Hangs-UnderChild inner p p n.child (omega arith) (t.child_link p n holds) h in
      let out = Hangs-UnderChild rest d p n.sibling before next g in
      let apart = λ (r s : Ptr) (a : UnderChild v p p r) (b : UnderChild v d p s) (e : r ≡ s).
        let (q, name, y, lt, over) = a in
        let (q', name', y', lt', over') = b in
        let down = Below-trans (IsChild-Below y) over in
        let one : q' ≡ p =
          child_unique y'.node child down y'.holds y'.parent y'.later
            (subst (Below v q') (sym e) over') in
        absurd (omega arith) in
      (
        All-Avoids (UnderChild v p p) p inner (λ r (q, name, y, lt, b) e. omega (arith, Below-le b))
            in_,
        All-Avoids (UnderChild v d p) p rest (λ r (q, name, y, lt, b) e. omega (arith, Below-le b))
            out,
        All-Disjoint (UnderChild v d p) inner rest
            (λ s b. All-Avoids (UnderChild v p p) s inner (λ r a e. apart r s a b (sym e)) in_) out,
        All-Disjoint (UnderChild v p p) rest inner
            (λ r a. All-Avoids (UnderChild v d p) r rest (λ s b e. apart r s a b e) out) in_,
        Hangs-Separate inner p p n.child (omega arith) (t.child_link p n holds) h,
        Hangs-Separate rest d p n.sibling before next g,
      )
