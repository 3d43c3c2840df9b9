-- ===== src/Vfs/Tree/Child.antt =====
-- The node that a path of a directory and a name leads to is the child of that name.
use umka_os.Base.{
  ℕ, zero, suc, ◌<◌, ◌≤◌, ◌≡◌, ◌≢◌, sym, ◌∙◌, ap, inl, inr, false, some, [], ◌∷◌, ◌++◌, Bool-cases,
  zero-cases, length, Text, slash, ok, ok_inj,
}
use umka_os.CString.{same, eq_of_same}
use umka_os.Vfs.{Ptr, null, Node, Vfs, IsLink, IsTree, Live}
use umka_os.Vfs.Path.{cut, walk, descend, find_child, get_path, max_sub}
use umka_os.Vfs.Path.Total.{descend-Lands, next-IsLink, get_path-Arrives, step-Arrives}
use umka_os.Vfs.Path.Search.{descend-eq, find_child-here, find_child-next}
use umka_os.Vfs.Path.Split.{walk-append}
use umka_os.Vfs.Path.Join.{IsFlat, cut-join}
use umka_os.Vfs.Tree.Create.{IsPlain, IsPlain-ne-nil, step-descend, get_path-walk}

-- The node `q` is the child `name` of `d`, and was made later.
pub record IsChild (v : Vfs) (d : Ptr) (name : Text) (q : Ptr) : Type 0 where
  pub node : Node
  pub holds : v.nodes q ≡ some node
  pub later : d < q
  pub parent : node.parent ≡ d
  pub filename : node.filename ≡ name

module _ {v : Vfs} (t : IsTree v) where
  find_child-filename :
      (k : ℕ) (name : Text) {d lo : Ptr} (p q : Ptr)
      → (p ≢ null → IsLink v d lo p)
      → find_child k v name p ≡ ok q
      → q ≢ null
      → (n : Node) × (v.nodes q ≡ some n) × (n.filename ≡ name)
  unfolding find_child
  find_child-filename zero name p q link e g = cc
  find_child-filename (suc k) name p q link e g = elim (zero-cases p) [
    | inl z ↦ absurd (g (let e' = rw z at e in cc))
    | inr h ↦
        let l = link h in
        elim (Bool-cases (same l.node.filename name)) [
          | inl s ↦
              let here = sym (find_child-here k v name p l.node l.holds h s) ∙ e in
              let one : p ≡ q = ok_inj p q here in
              (l.node, rw (sym one) l.holds, eq_of_same l.node.filename name s)
          | inr s ↦
              let next = sym (find_child-next k v name p l.node l.holds h s) ∙ e in
              find_child-filename k name {lo = p} l.node.sibling q (next-IsLink t l) next g
        ]
  ]

  descend-IsChild :
      (d q : Ptr) (name : Text) → Live v d → descend v d name ≡ ok q → q ≢ null → IsChild v d name q
  descend-IsChild d q name (n, holds) e g =
      let (r, f, link) = descend-Lands t name d (n, holds) in
      let one : r ≡ q = ok_inj r q (sym f ∙ e) in
      let l = rw one at link in
      let (m, holds_m, named) =
        find_child-filename (suc v.fresh) name n.child q (t.child_link d n holds)
          (sym (descend-eq v d name n holds) ∙ e) g in
      let same_node : m ≡ (l g).node = let here = (l g).holds in cc in
      record {
        node = m;
        holds = holds_m;
        later = (l g).later;
        parent = rw same_node (l g).parent;
        filename = named;
      }

  pub get_path-IsChild :
      (path name : Text) (d q : Ptr)
      → length (cut path []) ≤ max_sub
      → length (cut (path ++ slash ∷ name) []) ≤ max_sub
      → IsPlain name
      → IsFlat name
      → get_path v path false ≡ ok d
      → d ≢ null
      → get_path v (path ++ slash ∷ name) false ≡ ok q
      → q ≢ null
      → IsChild v d name q
  get_path-IsChild path name d q short short' plain flat e g f h =
      let (d', e', live) = get_path-Arrives t path false short in
      let same_d : d' ≡ d = ok_inj d' d (sym e' ∙ e) in
      let live_d = rw same_d at live in
      let (r, s, _) = step-Arrives t d name (live_d g) in
      let dir = sym (get_path-walk v path false short) ∙ e in
      let whole = walk-append v v.root d r (cut path []) name dir g s in
      let now =
        ap (walk v v.root) (sym (cut-join path name flat (IsPlain-ne-nil plain)))
        ∙ sym (get_path-walk v (path ++ slash ∷ name) false short')
        ∙ f in
      let same_r : r ≡ q = ok_inj r q (sym whole ∙ now) in
      descend-IsChild d q name (live_d g) (sym (step-descend v d name plain) ∙ s ∙ ap ok same_r) h
