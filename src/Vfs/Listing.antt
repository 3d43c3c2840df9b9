-- ===== src/Vfs/Listing.antt =====
-- Listing a directory: `vfsRoot`, `vfsChild`, `vfsNext`, `vfsFSOName` and `vfsFSOOpen` of
-- src/mock_libc/vfs.c. An `FSO` is a node.
pub mod Visible
use umka_os.Base.{
  ℕ, zero, suc, Bool, true, false, Option, none, some, [], ◌∷◌, ◌==◌, Text, dollar, Res, ok, fault,
  if◌then◌else◌,
}
use umka_os.Vfs.{Ptr, null, Node, Vfs}
use umka_os.Vfs.Stream.{Stream, new_stream}

-- `node->filename[0] == '$'`
unfoldable pub is_hidden : Text → Bool
is_hidden [] = false
is_hidden (c ∷ name) = c == dollar

pub fso_root : Vfs → Ptr
fso_root v = v.root

-- `vfsNext`; the recursion takes fuel.
unfoldable pub fso_next : ℕ → Vfs → Ptr → Res Ptr
fso_next zero v p = fault
fso_next (suc k) v p = elim (v.nodes p) [
  | none ↦ fault
  | some n ↦ elim (n.sibling == null) [
    | true ↦ ok null
    | false ↦ elim (v.nodes n.sibling) [
      | none ↦ fault
      | some m ↦ elim (is_hidden m.filename) [
        | true ↦ fso_next k v n.sibling
        | false ↦ ok n.sibling
      ]
    ]
  ]
]

-- `vfsChild`
unfoldable pub fso_child : ℕ → Vfs → Ptr → Res Ptr
fso_child fuel v p = elim (v.nodes p) [
  | none ↦ fault
  | some n ↦ elim (n.child == null) [
    | true ↦ ok null
    | false ↦ elim (v.nodes n.child) [
      | none ↦ fault
      | some m ↦ elim (is_hidden m.filename) [ true ↦ fso_next fuel v n.child | false ↦ ok n.child ]
    ]
  ]
]

unfoldable pub fso_name : Vfs → Ptr → Res Text
fso_name v p = elim (v.nodes p) [ none ↦ fault | some n ↦ ok n.filename ]

-- `vfsFSOOpen`: unlike `vfsOpen` it does not empty the file for a `w`.
unfoldable pub fso_open : Ptr → Text → Option Stream
fso_open p [] = some (new_stream p)
fso_open p (c ∷ perm) = let rest = fso_open p perm in if c == b'a' then none else rest
