-- ===== src/Vfs/Path.antt =====
-- Paths: `vfsBasename` and `vfsGetPath`.
pub mod Search
pub mod Total
pub mod Stable
pub mod Split
pub mod Join
pub mod Up
use umka_os.Base.{
  ℕ, zero, suc, ◌+◌, ◌≤◌, ◌≡◌, Bool, true, false, Option, none, some, List, [], ◌∷◌, ◌++◌, ◌==◌,
  ltb, if◌then◌else◌, length, Text, codes, slash, Res, ok, fault, ◌>>=◌,
}
use umka_os.CString.{same}
use umka_os.Vfs.{Ptr, null, Node, Vfs}

-- The loop of `vfsBasename`; `base` is what follows the last slash so far.
unfoldable pub base_loop : Text → Text → Text
base_loop [] base = base
base_loop (c ∷ s) base = base_loop s (if c == slash then s else base)

unfoldable pub basename : Text → Text
unfolding base_loop
basename path = base_loop path path

-- `if (n > 0) sub[sub_idx++] = …`
unfoldable pub push : Text → List Text → List Text
push [] rest = rest
push (c ∷ cur) rest = (c ∷ cur) ∷ rest

-- The loop that splits at slashes; `cur` holds the last `n` characters.
unfoldable pub cut : Text → Text → List Text
cut [] cur = push cur []
cut (c ∷ s) cur = elim (c == slash) [ true ↦ push cur (cut s []) | false ↦ cut s (cur ++ c ∷ []) ]

-- `if (base && sub_idx >= 1) --sub_idx`
unfoldable pub drop_last : List Text → List Text
drop_last [] = []
drop_last (x ∷ []) = []
drop_last (x ∷ y ∷ xs) = x ∷ drop_last (y ∷ xs)

-- `while (child)`: the first child with the name, or null.
unfoldable pub find_child : ℕ → Vfs → Text → Ptr → Res Ptr
find_child zero v name child = fault
find_child (suc k) v name child = elim (child == null) [
  | true ↦ ok null
  | false ↦ elim (v.nodes child) [
    | none ↦ fault
    | some n ↦ elim (same n.filename name) [
      | true ↦ ok child
      | false ↦ find_child k v name n.sibling
    ]
  ]
]

-- A component that is neither `..`, `.` nor empty.
unfoldable pub descend : Vfs → Ptr → Text → Res Ptr
descend v node name = elim (v.nodes node) [
  | none ↦ fault
  | some n ↦ find_child (suc v.fresh) v name n.child
]

unfoldable pub ascend : Vfs → Ptr → Res Ptr
ascend v node = elim (v.nodes node) [ none ↦ fault | some n ↦ ok n.parent ]

-- One round of the walk; null stands for `goto cleanup` with no node.
unfoldable pub step : Vfs → Ptr → Text → Res Ptr
step v node name =
    if same name (codes "..")
    then ascend v node
    else if same name (codes ".")
    then ok node
    else if same name []
    then ok node
    else descend v node name

unfoldable pub walk : Vfs → Ptr → List Text → Res Ptr
walk v node [] = ok node
walk v node (name ∷ names) = step v node name >>= λ p. if p == null then ok null else walk v p names

-- The array `sub` has room for 32 components.
abbrev pub max_sub : ℕ
max_sub = 32

unfoldable pub get_path : Vfs → Text → Bool → Res Ptr
get_path v path base =
    let sub = cut path [] in
    if ltb max_sub (length sub) then fault else walk v v.root (if base then drop_last sub else sub)

unfoldable pub exists : Vfs → Text → Res Bool
exists v path = get_path v path false >>= λ p. ok (if p == null then false else true)
