-- ===== src/Vfs/Tree/Remove/Whole.antt =====
-- `vfsRemove` of a whole directory.
use umka_os.Base.{
  ℕ, suc, ◌+◌, ◌*◌, ◌<◌, ◌≤◌, ◌≡◌, ◌≢◌, refl, sym, ◌∙◌, ap, true, false, none, some, List, [], ◌∷◌,
  ◌++◌, arith, ◌==◌, ==-false, subst, ok, ok_inj, Text, Option,
}
use umka_os.Vfs.{Ptr, null, Node, Vfs, put, IsLink, IsTree}
use umka_os.Vfs.Change.{nodes-put_other}
use umka_os.Vfs.Path.{get_path}
use umka_os.Vfs.Listing.Visible.{Siblings}
use umka_os.Vfs.Tree.{set_child, detach, free, free_children, drop_node, remove}
use umka_os.Vfs.Tree.Child.{IsChild}
use umka_os.Vfs.Tree.Below.{Below, here, Below-le, Below-trans, IsChild-Below, child_unique}
use umka_os.Vfs.Tree.Remove.{order, detach-relink, relink-sibling, unlinked}
use umka_os.Vfs.Tree.Remove.Chain.{
  last_or, last_or-lt, last_or-gt, Increasing-behind, Siblings-last, nodes-drop_other,
  nodes-drop_self,
}
use umka_os.Vfs.Tree.Remove.Forest.{
  Forest, bare, grows, Hangs, Avoids, Gone, Hangs-same, Gone-same, single, Disjoint-single,
  free_children-Freed, Freed,
}
use umka_os.Vfs.Tree.Remove.Subtree.{
  All, All-map, All-Avoids, UnderChild, Hangs-UnderChild, Hangs-Separate,
}
use umka_os.Vfs.Tree.Remove.Count.{size-lt, forest_of}

abbrev Each : (Ptr → Type 0) → List Ptr → Type 0
Each P [] = Unit
Each P (x ∷ xs) = P x × Each P xs

Each-without :
    (P : Ptr → Type 0) (pre post : List Ptr) (y : Ptr)
    → Each P (pre ++ y ∷ post)
    → Each P (pre ++ post)
Each-without P [] post y (h, hs) = hs
Each-without P (x ∷ pre) post y (h, hs) = (h, Each-without P pre post y hs)

-- The list is kept when its nodes are.
Siblings-kept :
    (P : Ptr → Type 0) (v w : Vfs) (c : Ptr) (xs : List Ptr)
    → ((x : Ptr) (m : Node) → v.nodes x ≡ some m → P x → w.nodes x ≡ some m)
    → Each P xs
    → Siblings v c xs
    → Siblings w c xs
Siblings-kept P v w c [] same h s = s
Siblings-kept P v w c (x ∷ xs) same (h, hs) (e, ne, (n, at_x, s)) =
    (e, ne, (n, same x n at_x h, Siblings-kept P v w n.sibling xs same hs s))

-- A child of `d` of some name.
abbrev Child : Vfs → Ptr → Ptr → Type 0
Child v d x = (name : Text) × IsChild v d name x

module _ {v : Vfs} (t : IsTree v) where
  Siblings-Child :
      (xs : List Ptr) (d lo c : Ptr)
      → d ≤ lo
      → (c ≢ null → IsLink v d lo c)
      → Siblings v c xs
      → Each (Child v d) xs
  Siblings-Child [] d lo c le link s = tt
  Siblings-Child (x ∷ xs) d lo c le link (e, ne, (n, at_x, s)) =
      let l = link (λ z. ne (sym e ∙ z)) in
      let at_c : v.nodes c ≡ some n = ap v.nodes e ∙ at_x in
      let one : l.node ≡ n = let h = l.holds in cc in
      let up : n.parent ≡ d = sym (ap (λ z. z.parent) one) ∙ l.parent in
      (
        (
          n.filename,
          record {
            node = n;
            holds = at_x;
            later = omega (arith, l.later);
            parent = up;
            filename = refl;
          },
        ),
        Siblings-Child xs d x n.sibling (omega (arith, l.later))
            (λ g. subst (λ z. IsLink v z x n.sibling) up (t.sibling_link x n at_x g)) s,
      )

-- What `vfsFree` unlinks a node from was made before it, and nothing else is written.
unlinked-off :
    {v : Vfs} (t : IsTree v) (d node : Ptr) (dn n : Node) (pre post : List Ptr) (w : Vfs)
    → v.nodes d ≡ some dn
    → v.nodes node ≡ some n
    → n.parent ≡ d
    → Siblings v dn.child (pre ++ node ∷ post)
    → detach v node n ≡ ok w
    → (x : Ptr) × (x < node) × ((q : Ptr) → q ≢ x → w.nodes q ≡ v.nodes q)
unfolding set_child
unlinked-off {v} t d node dn n [] post w at_d at_node child_of s e =
    let inc = order t d node dn n [] post at_d at_node child_of s in
    let new : Node = record dn { child = n.sibling } in
    let first : set_child v d n.sibling ≡ ok (put v d new) = rw (set_child, at_d) refl in
    let one : w ≡ put v d new =
      ok_inj w (put v d new)
        (sym e ∙ detach-relink t d node dn n [] post at_d at_node child_of s ∙ first) in
    (d, inc.0, λ q ne. ap (λ u. u.nodes q) one ∙ nodes-put_other v d new q ne)
unlinked-off {v} t d node dn n (y ∷ pre) post w at_d at_node child_of s e =
    let inc = order t d node dn n (y ∷ pre) post at_d at_node child_of s in
    let p = last_or y pre in
    let (old, at_p) = Siblings-last v dn.child y pre (node ∷ post) s in
    let new : Node = record old { sibling = n.sibling } in
    let low = last_or-gt d v.fresh y pre (node ∷ post) inc in
    let one : w ≡ put v p new = ok_inj w (put v p new) (
      sym e
      ∙ detach-relink t d node dn n (y ∷ pre) post at_d at_node child_of s
      ∙ relink-sibling v d p n.sibling old (λ z. omega arith) at_p) in
    (
      p,
      last_or-lt d v.fresh y node pre post inc,
      λ q ne. ap (λ u. u.nodes q) one ∙ nodes-put_other v p new q ne,
    )

free-step :
    (k : ℕ) (v w1 w2 : Vfs) (node : Ptr) (n : Node)
    → v.nodes node ≡ some n
    → detach v node n ≡ ok w1
    → w1.nodes node ≡ some n
    → free_children k w1 n.child ≡ ok w2
    → free (suc k) v node ≡ ok (drop_node w2 node)
unfolding free
free-step k v w1 w2 node n at_node detached still e = rw (free, at_node, detached, still, e) refl

none_some : (m : Node) → ◌≢◌ {A = Option Node} none (some m)
none_some m e = cc

Hangs-lt :
    {v : Vfs} (t : IsTree v) (f : Forest) (d c : Ptr) → Hangs v d c f → All (λ r. r < v.fresh) f
Hangs-lt t bare d c h = tt
Hangs-lt t (grows p inner rest) d c (at_p, ne, (n, holds, up, h, g)) =
    (t.below_fresh p n holds, Hangs-lt t inner p n.child h, Hangs-lt t rest d n.sibling g)

-- What is below `node` is not `node`, nor made before it, nor outside.
UnderChild-Avoids :
    (v : Vfs) (node x : Ptr) (f : Forest) → x ≤ node → All (UnderChild v node node) f → Avoids x f
UnderChild-Avoids v node x f le under =
    All-Avoids (UnderChild v node node) x f (λ r (c, name, y, lt, b) e. omega (arith, Below-le b))
      under

UnderChild-Avoids_outside :
    (v : Vfs) (node q : Ptr) (f : Forest)
    → ¬ Below v node q
    → All (UnderChild v node node) f
    → Avoids q f
UnderChild-Avoids_outside v node q f outside under =
    All-Avoids (UnderChild v node node) q f
      (λ y (c, name, child, lt, b) z.
        outside (subst (Below v node) (sym z) (Below-trans (IsChild-Below child) b)))
      under

-- The forest below `node` is freed once a write before `node` has unlinked it.
free_inside :
    {v : Vfs} (t : IsTree v) (node : Ptr) (n : Node) (w1 : Vfs) (x : Ptr)
    → v.nodes node ≡ some n
    → node ≢ null
    → x < node
    → ((q : Ptr) → q ≢ x → w1.nodes q ≡ v.nodes q)
    → w1.nodes node ≡ some n
    → (f : Forest) × (w2 : Vfs) × (free_children (2 * v.fresh) w1 n.child ≡ ok w2)
      × Hangs v node n.child f
      × All (UnderChild v node node) f
      × Freed w1 node n f w2
free_inside {v} t node n w1 x at_node real before same still =
    let inside = t.below_fresh node n at_node in
    let links = t.child_link node n at_node in
    let (f, hangs) =
      forest_of t (suc v.fresh) node node n.child links (omega arith)
        (λ g. omega (arith, (links g).later)) in
    let under = Hangs-UnderChild t f node node n.child (omega arith) links hangs in
    let sep = Hangs-Separate t f node node n.child (omega arith) links hangs in
    let few =
      size-lt v.fresh f (omega arith) sep
        (All-map (UnderChild v node node) (λ r. 1 ≤ r) f
          (λ r (c, _, y, lt, b). omega (arith, Below-le b)) under)
        (Hangs-lt t f node n.child hangs) in
    let off = Disjoint-single x f (UnderChild-Avoids v node x f (omega arith) under) in
    let (w2, e, r) =
      free_children-Freed f (2 * v.fresh) w1 node n.child n real still refl
        (Hangs-same f v w1 (single x) node n.child (λ y (ne, _, _). same y ne) off hangs)
        (UnderChild-Avoids v node node f (omega arith) under) sep (omega arith) in
    (f, w2, e, hangs, under, r)

-- In a tree, `vfsRemove` of a path that leads to a node in a directory with the nodes `pre`, this one,
-- and `post` in its list ends with no fault, within its fuel: the node and the whole forest below it
-- are gone, the list of the directory is `pre` followed by `post`, and any node that is not the
-- removed one and not below it keeps its name and its data.
pub remove-Below :
    {v : Vfs} (t : IsTree v) (path : Text) (d node : Ptr) (dn n : Node) (pre post : List Ptr)
    (q : Ptr) (k : Node)
    → get_path v path false ≡ ok node
    → v.nodes d ≡ some dn
    → v.nodes node ≡ some n
    → n.parent ≡ d
    → Siblings v dn.child (pre ++ node ∷ post)
    → v.nodes q ≡ some k
    → ¬ Below v node q
    → (w : Vfs) × (f : Forest) × (remove v path ≡ ok (w, true))
      × (w.nodes node ≡ none)
      × Hangs v node n.child f
      × Gone w f
      × ((dm : Node) × (w.nodes d ≡ some dm) × Siblings w dm.child (pre ++ post))
      × ((m : Node) × (w.nodes q ≡ some m) × (m.filename ≡ k.filename) × (m.content ≡ k.content))
unfolding remove
remove-Below {v} t path d node dn n pre post q k leads at_d at_node child_of s at_q outside =
    let inc = order t d node dn n pre post at_d at_node child_of s in
    let after : d < node = Increasing-behind d v.fresh node pre post inc in
    let (w1, (detached, still, (dm, at_dm, list), (m, at_m, name, bytes))) =
      unlinked t d node dn n pre post q k at_d at_node child_of s at_q in
    let (x, before, same) =
      unlinked-off t d node dn n pre post w1 at_d at_node child_of s detached in
    let (f, w2, e, hangs, under, r) =
      free_inside t node n w1 x at_node (λ z. omega arith) before same still in
    let early = λ (y : Ptr) (le : y ≤ node). UnderChild-Avoids v node y f le under in
    let w = drop_node w2 node in
    let kept = λ (y : Ptr) (ne : y ≢ node) (away : Avoids y f).
      nodes-drop_other w2 node y ne ∙ r.others y ne away in
    let itself : IsChild v d n.filename node = record {
      node = n;
      holds = at_node;
      later = after;
      parent = child_of;
      filename = refl;
    } in
    let beside =
      λ (y : Ptr) (l : Node) (at_y : (drop_node w1 node).nodes y ≡ some l) (c : Child v d y).
        let (name, child) = c in
        let ne : y ≢ node = λ z.
          none_some l
            (sym (nodes-drop_self w1 node) ∙ ap (drop_node w1 node).nodes (sym z) ∙ at_y) in
        let away =
          All-Avoids (UnderChild v node node) y f
            (λ r (c', _, child', lt, b) z. ne (
              child_unique child.node itself
                (subst (Below v node) (sym z) (Below-trans (IsChild-Below child') b)) child.holds
                child.parent child.later here))
            under in
        kept y ne away ∙ sym (nodes-drop_other w1 node y ne) ∙ at_y in
    let real : (node == null) ≡ false = ==-false node null (λ z. omega arith) in
    let enough : 2 * v.fresh + 1 ≡ suc (2 * v.fresh) = omega arith in
    (
      w,
      f,
      rw (leads, real, enough, free-step (2 * v.fresh) v w1 w2 node n at_node detached still e)
          refl,
      nodes-drop_self w2 node,
      hangs,
      Gone-same f w2 w (single node) (λ y (ne, _, _). nodes-drop_other w2 node y ne)
          (Disjoint-single node f (early node (omega arith))) r.gone,
      (
        dm,
        kept d (λ z. omega arith) (early d (omega arith)) ∙ at_dm,
        Siblings-kept (Child v d) (drop_node w1 node) w dm.child (pre ++ post) beside
            (Each-without (Child v d) pre post node (
              Siblings-Child t (pre ++ node ∷ post) d d dn.child (omega arith)
                (t.child_link d dn at_d) s))
            list,
      ),
      (
        m,
        kept q (λ z. outside (subst (Below v node) (sym z) here))
              (UnderChild-Avoids_outside v node q f outside under)
            ∙ at_m,
        name,
        bytes,
      ),
    )
