-- ===== src/Vfs/Tree.antt =====
-- Making and removing nodes: `vfsAlloc`, `vfsFree`, `vfsCreate_`, `vfsInit`, `vfsRemove`.
pub mod Grow
pub mod Hung
pub mod Found
pub mod Create
pub mod Child
pub mod Below
pub mod Unnamed
pub mod Init
pub mod Remove
use umka_os.Base.{
  ℕ, zero, suc, ◌+◌, ◌*◌, Bool, true, false, none, some, [], ◌==◌, leb, if◌then◌else◌, length, Text,
  codes, Res, ok, fault, ◌>>=◌, update,
}
use umka_os.Vfs.{Ptr, null, Node, Vfs, put}
use umka_os.Vfs.Path.{get_path, basename}

-- `char filename[32]`
abbrev pub filename_size : ℕ
filename_size = 32

-- `while (child->sibling)`
unfoldable pub last_sibling : ℕ → Vfs → Ptr → Res Ptr
last_sibling zero v child = fault
last_sibling (suc k) v child = elim (v.nodes child) [
  | none ↦ fault
  | some n ↦ elim (n.sibling == null) [ true ↦ ok child | false ↦ last_sibling k v n.sibling ]
]

unfoldable pub set_child : Vfs → Ptr → Ptr → Res Vfs
set_child v d q = elim (v.nodes d) [ none ↦ fault | some n ↦ ok (put v d (record n { child = q })) ]

unfoldable pub set_sibling : Vfs → Ptr → Ptr → Res Vfs
set_sibling v p q = elim (v.nodes p) [
  | none ↦ fault
  | some n ↦ ok (put v p (record n { sibling = q }))
]

-- `free(node)`
unfoldable pub drop_node : Vfs → Ptr → Vfs
drop_node v p = record v { nodes = update v.nodes p none }

-- Links `new` in behind the last child of `d`.
unfoldable pub attach : Vfs → Ptr → Ptr → Res Vfs
attach v d new = elim (v.nodes d) [
  | none ↦ fault
  | some n ↦
      if n.child == null
      then set_child v d new
      else (last_sibling (suc v.fresh) v n.child >>= λ last. set_sibling v last new)
]

abbrev pub new_node : Ptr → Text → Node
new_node d name = record { content = []; filename = name; parent = d; child = null; sibling = null }

-- `calloc` and the initialisation of the new node.
unfoldable pub calloc_node : Vfs → Ptr → Text → Vfs
calloc_node v d name = record v {
  nodes = update v.nodes v.fresh (some (new_node d name));
  fresh = v.fresh + 1;
}

-- `strcpy` into `filename` faults past its 31 characters.
unfoldable pub alloc : Vfs → Ptr → Text → Res (Vfs × Ptr)
alloc v d name =
    if leb filename_size (length name)
    then fault
    else attach (calloc_node v d name) d v.fresh >>= λ w. ok (w, v.fresh)

-- `vfsCreate_` where the path leads to no node; null if there is no such directory either.
unfoldable pub create_missing : Vfs → Text → Res (Vfs × Ptr)
create_missing v path =
    get_path v path true >>= λ d. if d == null then ok (v, null) else alloc v d (basename path)

-- `vfsCreate_`; `vfsCreate` returns 0 for a node and -1 for null.
unfoldable pub create : Vfs → Text → Res (Vfs × Ptr)
create v path =
    get_path v path false >>= λ p. if p == null then create_missing v path else ok (v, p)

-- The root of `vfsInit` is the first node; its name is empty.
abbrev pub blank : Vfs
blank = record { nodes = update (λ p. none) 1 (some (new_node null [])); fresh = 2; root = 1 }

-- `vfsInit`
unfoldable pub init : Res Vfs
init = create blank (codes "$stdin") >>= λ (v₁, _).
    create v₁ (codes "$stdout") >>= λ (v₂, _). create v₂ (codes "$stderr") >>= λ (v₃, _). ok v₃

-- The search of `vfsFree` for `node` among the children of its parent `d`, and its removal there.
unfoldable pub unlink : ℕ → Vfs → Ptr → Ptr → Ptr → Ptr → Res Vfs
unlink zero v d node prev child = fault
unlink (suc k) v d node prev child = elim (child == null) [
  | true ↦ ok v
  | false ↦ elim (v.nodes child) [
    | none ↦ fault
    | some c ↦ elim (child == node) [
      | false ↦ unlink k v d node child c.sibling
      | true ↦ elim (prev == null) [
        | true ↦ set_child v d c.sibling
        | false ↦ set_sibling v prev c.sibling
      ]
    ]
  ]
]

-- `if (node->parent) { … }`
unfoldable pub detach : Vfs → Ptr → Node → Res Vfs
detach v node n = if n.parent == null then ok v else elim (v.nodes n.parent) [
  | none ↦ fault
  | some d ↦ unlink (suc v.fresh) v n.parent node null d.child
]

unfoldable mutual
  -- `vfsFree`
  pub free : ℕ → Vfs → Ptr → Res Vfs
  free zero v node = fault
  free (suc k) v node = elim (v.nodes node) [
    | none ↦ fault
    | some n ↦ detach v node n >>= λ v₁. elim (v₁.nodes node) [
      | none ↦ fault
      | some m ↦ free_children k v₁ m.child >>= λ v₂. ok (drop_node v₂ node)
    ]
  ]

  -- `while (child) { next = child->sibling; vfsFree(child); child = next; }`
  pub free_children : ℕ → Vfs → Ptr → Res Vfs
  free_children zero v child = fault
  free_children (suc k) v child = elim (child == null) [
    | true ↦ ok v
    | false ↦ elim (v.nodes child) [
      | none ↦ fault
      | some c ↦ free k v child >>= λ w. free_children k w c.sibling
    ]
  ]

-- `vfsRemove`: 0, or -1 if there is no such node, with the new tree.
unfoldable pub remove : Vfs → Text → Res (Vfs × Bool)
remove v path = get_path v path false >>= λ p.
    if p == null then ok (v, false) else (free (2 * v.fresh + 1) v p >>= λ w. ok (w, true))
