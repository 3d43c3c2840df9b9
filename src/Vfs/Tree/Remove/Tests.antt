-- ===== src/Vfs/Tree/Remove/Tests.antt =====
-- A directory with a file is removed from the root.
use umka_os.Base.{
  refl, ◌≡◌, sym, ◌∙◌, subst, ok, some, none, codes, true, false, [], ◌∷◌, arith, update,
}
use umka_os.CString.{same}
use umka_os.Vfs.{null, Node, Vfs, IsTree, put}
use umka_os.Vfs.Path.{
  get_path, cut, basename, base_loop, push, walk, step, find_child, descend, drop_last,
}
use umka_os.Vfs.Listing.Visible.{Siblings}
use umka_os.Vfs.Tree.{
  create, create_missing, alloc, calloc_node, attach, set_child, set_sibling, last_sibling, remove,
  new_node,
}
use umka_os.Vfs.Tree.Create.{IsShort, create-IsTree}
use umka_os.Vfs.Tree.Below.{Below, Below-le}
use umka_os.Vfs.Tree.Remove.Forest.{Forest, Hangs, Gone}
use umka_os.Vfs.Tree.Remove.Whole.{remove-Below}
use umka_os.Vfs.Tests.{one_file, one_file-IsTree, file}

-- The root, the file, the directory, and the file in it.
abbrev root_node : Node
root_node = record (new_node null []) { child = 2 }

abbrev first_file : Node
first_file = record file { sibling = 3 }

abbrev dir_node : Node
dir_node = record (new_node 1 (codes "d")) { child = 4 }

abbrev with_dir : Vfs
with_dir = put (calloc_node one_file 1 (codes "d")) 2 first_file

abbrev with_both : Vfs
with_both = put (calloc_node with_dir 3 (codes "f")) 3 dir_node

made_dir : create one_file (codes "d") ≡ ok (with_dir, 3)
unfolding create create_missing get_path cut push drop_last walk step descend find_child alloc
    attach set_child set_sibling last_sibling put update basename base_loop same calloc_node
made_dir = refl

made_both : create with_dir (codes "d/f") ≡ ok (with_both, 4)
unfolding create create_missing get_path cut push drop_last walk step descend find_child alloc
    attach set_child set_sibling last_sibling put update basename base_loop same calloc_node
made_both = refl

dir-IsShort : IsShort (codes "d")
unfolding cut push basename base_loop
dir-IsShort = record { components = omega arith; name = omega arith }

both-IsShort : IsShort (codes "d/f")
unfolding cut push basename base_loop
both-IsShort = record { components = omega arith; name = omega arith }

with_both-IsTree : IsTree with_both
with_both-IsTree =
    let (w, p, e, t) = create-IsTree one_file-IsTree (codes "d") dir-IsShort in
    let one : w ≡ with_dir = cc (sym e ∙ made_dir) in
    let (w', p', e', t') = create-IsTree (subst IsTree one t) (codes "d/f") both-IsShort in
    let one' : w' ≡ with_both = cc (sym e' ∙ made_both) in subst IsTree one' t'

found_dir : get_path with_both (codes "d") false ≡ ok 3
unfolding get_path cut push walk step descend find_child same put calloc_node update
found_dir = refl

at_root : with_both.nodes 1 ≡ some root_node
unfolding put calloc_node update
at_root = refl

at_first : with_both.nodes 2 ≡ some first_file
unfolding put calloc_node update
at_first = refl

at_dir : with_both.nodes 3 ≡ some dir_node
unfolding put calloc_node update
at_dir = refl

first_outside : ¬ Below with_both 3 2
first_outside b = omega (arith, Below-le b)

-- The first file stays.
remove-Below_example :
    (w : Vfs) × (f : Forest) × (remove with_both (codes "d") ≡ ok (w, true))
    × (w.nodes 3 ≡ none)
    × Hangs with_both 3 4 f
    × Gone w f
    × ((dm : Node) × (w.nodes 1 ≡ some dm) × Siblings w dm.child (2 ∷ []))
    × ((m : Node) × (w.nodes 2 ≡ some m) × (m.filename ≡ codes "$stdin") × (m.content ≡ []))
remove-Below_example =
    remove-Below with_both-IsTree (codes "d") 1 3 root_node dir_node (2 ∷ []) [] 2 first_file
      found_dir at_root at_dir refl
      (
        refl,
        (λ e. omega arith),
        (first_file, at_first, (refl, (λ e. omega arith), (dir_node, at_dir, refl))),
      )
      at_first first_outside
