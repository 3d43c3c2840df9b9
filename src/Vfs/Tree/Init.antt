-- ===== src/Vfs/Tree/Init.antt =====
-- `vfsInit`: the tree that the system starts with.
use umka_os.Base.{[], Text, ap, sym, ◌∙◌, ◌≡◌, refl, some, arith, false, codes, ok, ◌>>=◌, update}
use umka_os.Vfs.{Ptr, null, Node, Vfs, IsTree}
use umka_os.Vfs.Path.{
  get_path, cut, basename, base_loop, push, walk, step, find_child, descend, ascend,
}
use umka_os.Vfs.{put}
use umka_os.Vfs.Path.{drop_last}
use umka_os.Vfs.Tree.{
  create_missing, alloc, calloc_node, attach, set_child, set_sibling, last_sibling, create,
  new_node, blank, init,
}
use umka_os.CString.{same}
use umka_os.Vfs.Tree.Create.{IsShort, create-IsTree}

blank-node : (p : Ptr) (n : Node) → blank.nodes p ≡ some n → (p ≡ 1) × (n ≡ new_node null [])
unfolding update
blank-node p n e = ground arith

pub blank-IsTree : IsTree blank
unfolding update
blank-IsTree = record {
  null_free = refl;
  root_live = (new_node null [], refl);
  below_fresh = λ p n e. omega (arith, (blank-node p n e).0);
  child_link = λ p n e h. absurd (h (ap (λ m. m.child) (blank-node p n e).1));
  sibling_link = λ p n e h. absurd (h (ap (λ m. m.sibling) (blank-node p n e).1));
  parent_live = λ p n e h. absurd (h (ap (λ m. m.parent) (blank-node p n e).1));
}

pub stdin-IsShort : IsShort (codes "$stdin")
unfolding cut push basename base_loop
stdin-IsShort = record { components = omega arith; name = omega arith }

pub stdout-IsShort : IsShort (codes "$stdout")
unfolding cut push basename base_loop
stdout-IsShort = record { components = omega arith; name = omega arith }

pub stderr-IsShort : IsShort (codes "$stderr")
unfolding cut push basename base_loop
stderr-IsShort = record { components = omega arith; name = omega arith }

pub init-stdin : (init >>= λ w. get_path w (codes "$stdin") false) ≡ ok 2
unfolding init create create_missing get_path cut push drop_last walk step descend ascend find_child
    same alloc calloc_node attach set_child set_sibling last_sibling put update basename base_loop
init-stdin = refl

pub init-stdout : (init >>= λ w. get_path w (codes "$stdout") false) ≡ ok 3
unfolding init create create_missing get_path cut push drop_last walk step descend ascend find_child
    same alloc calloc_node attach set_child set_sibling last_sibling put update basename base_loop
init-stdout = refl

pub init-stderr : (init >>= λ w. get_path w (codes "$stderr") false) ≡ ok 4
unfolding init create create_missing get_path cut push drop_last walk step descend ascend find_child
    same alloc calloc_node attach set_child set_sibling last_sibling put update basename base_loop
init-stderr = refl

-- `vfsInit` does not fault, and what it makes is a tree with the three standard streams, each at
-- a node of its own.
pub init-IsTree :
    (w : Vfs) × (init ≡ ok w)
    × IsTree w
    × (get_path w (codes "$stdin") false ≡ ok 2)
    × (get_path w (codes "$stdout") false ≡ ok 3)
    × (get_path w (codes "$stderr") false ≡ ok 4)
unfolding init
init-IsTree =
    let (v₁, p₁, e₁, t₁) = create-IsTree blank-IsTree (codes "$stdin") stdin-IsShort in
    let (v₂, p₂, e₂, t₂) = create-IsTree t₁ (codes "$stdout") stdout-IsShort in
    let (v₃, p₃, e₃, t₃) = create-IsTree t₂ (codes "$stderr") stderr-IsShort in
    let made : init ≡ ok v₃ = rw (e₁, e₂, e₃) refl in
    (
      v₃,
      made,
      t₃,
      found v₃ made (codes "$stdin") 2 init-stdin,
      found v₃ made (codes "$stdout") 3 init-stdout,
      found v₃ made (codes "$stderr") 4 init-stderr,
    )
  where
    found :
        (w : Vfs)
        → init ≡ ok w
        → (path : Text) (p : Ptr) → (init >>= λ w. get_path w path false) ≡ ok p
        → get_path w path false ≡ ok p
    found w e path p f = ap (λ r. r >>= λ w. get_path w path false) (sym e) ∙ f
