-- ===== src/Vfs/Tree/Remove/Chain.antt =====
-- The list of the nodes in a directory while `vfsFree` takes one of them off.
use umka_os.Base.{
  ℕ, zero, suc, ◌+◌, ◌<◌, ◌≡◌, ◌≢◌, refl, sym, ◌∙◌, ap, true, false, none, some, List, [], ◌∷◌,
  ◌++◌, arith, ◌==◌, ==-false, length, subst, Res, update_self, update_other,
}
use umka_os.Vfs.{Ptr, null, Node, Vfs, IsTree}
use umka_os.Vfs.Listing.Visible.{Siblings}
use umka_os.Vfs.Tree.{set_child, set_sibling, unlink, drop_node}

-- Increasing from behind `lo` to below `hi`.
abbrev pub Increasing : Ptr → Ptr → List Ptr → Type 0
Increasing lo hi [] = lo < hi
Increasing lo hi (x ∷ xs) = (lo < x) × Increasing x hi xs

pub Increasing-lt : (lo hi : Ptr) (xs : List Ptr) → Increasing lo hi xs → length xs + lo < hi
Increasing-lt lo hi [] h = omega arith
Increasing-lt lo hi (x ∷ xs) (h, hs) = omega (arith, Increasing-lt x hi xs hs)

pub Siblings-Increasing :
    {v : Vfs} (t : IsTree v) (xs : List Ptr) (lo p : Ptr)
    → (p ≢ null → lo < p)
    → lo < v.fresh
    → Siblings v p xs
    → Increasing lo v.fresh xs
Siblings-Increasing t [] lo p later below s = below
Siblings-Increasing t (x ∷ xs) lo p later below (e, ne, (n, at_x, s)) = (
  omega (arith, later (λ z. ne (sym e ∙ z))),
  Siblings-Increasing t xs x n.sibling (λ g. (t.sibling_link x n at_x g).later)
      (t.below_fresh x n at_x) s,
)

-- A node of a list stands behind those in front of it.
pub Increasing-behind :
    (lo hi y : Ptr) (pre post : List Ptr) → Increasing lo hi (pre ++ y ∷ post) → lo < y
Increasing-behind lo hi y [] post h = h.0
Increasing-behind lo hi y (x ∷ pre) post (h, hs) =
    omega (arith, Increasing-behind x hi y pre post hs)

pub some_inj : (m n : Node) → some m ≡ some n → m ≡ n
some_inj m n e = cc

-- The last of a list, or `p`.
abbrev pub last_or : Ptr → List Ptr → Ptr
last_or p [] = p
last_or p (x ∷ xs) = last_or x xs

-- The pointer that led to the removed node leads to `q`.
abbrev pub relink : Vfs → Ptr → Ptr → Ptr → Res Vfs
relink v d prev q = elim (prev == null) [ true ↦ set_child v d q | false ↦ set_sibling v prev q ]

pub unlink-relink :
    (k : ℕ) (v : Vfs) (d node prev c : Ptr) (pre post : List Ptr) (n : Node) (lo hi : Ptr)
    → v.nodes node ≡ some n
    → Siblings v c (pre ++ node ∷ post)
    → Increasing lo hi (pre ++ node ∷ post)
    → length pre < k
    → unlink k v d node prev c ≡ relink v d (last_or prev pre) n.sibling
unfolding unlink
unlink-relink zero v d node prev c pre post n lo hi holds s inc enough = absurd (omega arith)
unlink-relink (suc k) v d node prev c [] post n lo hi holds (e, ne, (m, at_c, s)) inc enough =
    let here : v.nodes c ≡ some n = ap v.nodes e ∙ holds in
    let found : (c == node) ≡ true = ground arith in
    let there : (c == null) ≡ false = ==-false c null (λ z. ne (sym e ∙ z)) in
    rw (unlink, there, here, found) refl
unlink-relink (suc k) v d node prev c (x ∷ pre) post n lo hi holds (e, ne, (m, at_c, s)) (lt, inc)
      enough =
    let here : v.nodes c ≡ some m = ap v.nodes e ∙ at_c in
    let behind = Increasing-behind x hi node pre post inc in
    let apart : (c == node) ≡ false = ==-false c node (λ z. omega arith) in
    let there : (c == null) ≡ false = ==-false c null (λ z. ne (sym e ∙ z)) in
    rw (unlink, there, here, apart)
      (unlink-relink k v d node c m.sibling pre post n x hi holds s inc (omega arith)
        ∙ ap (λ p. relink v d (last_or p pre) n.sibling) e)

-- The nodes from `p` on are the same in two stores that agree behind `lo`.
pub Siblings-agree :
    (v w : Vfs) (lo hi p : Ptr) (xs : List Ptr)
    → ((q : Ptr) → lo < q → w.nodes q ≡ v.nodes q)
    → Increasing lo hi xs
    → Siblings v p xs
    → Siblings w p xs
Siblings-agree v w lo hi p [] same inc s = s
Siblings-agree v w lo hi p (x ∷ xs) same (lt, inc) (e, ne, (n, at_x, s)) = (
  e,
  ne,
  (n, same x lt ∙ at_x, Siblings-agree v w x hi n.sibling xs (λ q h. same q (omega arith)) inc s),
)

pub last_or-gt :
    (lo hi x : Ptr) (pre rest : List Ptr) → Increasing lo hi (x ∷ pre ++ rest) → lo < last_or x pre
last_or-gt lo hi x [] rest h = h.0
last_or-gt lo hi x (y ∷ pre) rest (h, hs) = omega (arith, last_or-gt x hi y pre rest hs)

pub last_or-lt :
    (lo hi x node : Ptr) (pre post : List Ptr)
    → Increasing lo hi (x ∷ pre ++ node ∷ post)
    → last_or x pre < node
last_or-lt lo hi x node [] post (h, hs) = hs.0
last_or-lt lo hi x node (y ∷ pre) post (h, hs) = last_or-lt x hi y node pre post hs

-- The list without the node, where the one in front of it now leads behind it.
pub Siblings-without :
    (v w : Vfs) (lo hi c x node : Ptr) (pre post : List Ptr) (n k : Node)
    → ((q : Ptr) → q ≢ last_or x pre → q ≢ node → w.nodes q ≡ v.nodes q)
    → v.nodes (last_or x pre) ≡ some k
    → w.nodes (last_or x pre) ≡ some (record k { sibling = n.sibling })
    → v.nodes node ≡ some n
    → Increasing lo hi (x ∷ pre ++ node ∷ post)
    → Siblings v c (x ∷ pre ++ node ∷ post)
    → Siblings w c (x ∷ pre ++ post)
Siblings-without v w lo hi c x node [] post n k same at_p now holds (lt, inc)
      (e, ne, (m, at_x, s)) =
    let (at_node, pos, (n', holds', s')) = s in
    let rest : Siblings v n.sibling post =
      subst (λ z. Siblings v z.sibling post) (some_inj n' n (sym holds' ∙ holds)) s' in
    (
      e,
      ne,
      (
        record k { sibling = n.sibling },
        now,
        Siblings-agree v w node hi n.sibling post
            (λ q h. same q (λ z. omega (arith, inc.0)) (λ z. omega arith)) inc.1 rest,
      ),
    )
Siblings-without v w lo hi c x node (y ∷ pre) post n k same at_p now holds (lt, inc)
      (e, ne, (m, at_x, s)) =
    let before = last_or-gt x hi y pre (node ∷ post) inc in
    let behind = Increasing-behind x hi node (y ∷ pre) post inc in
    (
      e,
      ne,
      (
        m,
        same x (λ z. omega arith) (λ z. omega arith) ∙ at_x,
        Siblings-without v w x hi m.sibling y node pre post n k same at_p now holds inc s,
      ),
    )

pub Siblings-last :
    (v : Vfs) (c x : Ptr) (pre rest : List Ptr)
    → Siblings v c (x ∷ pre ++ rest)
    → (k : Node) × (v.nodes (last_or x pre) ≡ some k)
Siblings-last v c x [] rest (e, ne, (m, at_x, s)) = (m, at_x)
Siblings-last v c x (y ∷ pre) rest (e, ne, (m, at_x, s)) = Siblings-last v m.sibling y pre rest s

pub nodes-drop_other : (v : Vfs) (p q : Ptr) → q ≢ p → (drop_node v p).nodes q ≡ v.nodes q
unfolding drop_node
nodes-drop_other v p q h = update_other v.nodes p none q h

pub nodes-drop_self : (v : Vfs) (p : Ptr) → (drop_node v p).nodes p ≡ none
unfolding drop_node
nodes-drop_self v p = update_self v.nodes p none
