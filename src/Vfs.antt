-- ===== src/Vfs.antt =====
-- The virtual file system of src/mock_libc/vfs.c: nodes on a store, and the tree that their
-- `child`, `sibling` and `parent` pointers make.
pub mod Path
pub mod Tree
pub mod Change
pub mod Stream
pub mod Listing
pub mod Tests
use umka_os.Base.{ℕ, ◌<◌, ◌≡◌, ◌≢◌, Option, none, some, List, [], ◌==◌, if◌then◌else◌, Text, update}

-- A pointer to a node; `malloc` gives the next unused one.
abbrev pub Ptr : Type 0
Ptr = ℕ

abbrev pub null : Ptr
null = 0

-- `content` is `data[0 .. datasize)`.
pub record Node : Type 0 where
  pub content : List ℕ
  pub filename : Text
  pub parent : Ptr
  pub child : Ptr
  pub sibling : Ptr

pub record Vfs : Type 0 where
  pub nodes : Ptr → Option Node
  pub fresh : Ptr
  pub root : Ptr

-- A write through a node pointer.
unfoldable pub put : Vfs → Ptr → Node → Vfs
put v p n = record v { nodes = update v.nodes p (some n) }

abbrev pub Live : Vfs → Ptr → Type 0
Live v p = (n : Node) × (v.nodes p ≡ some n)

-- `q` is a node below the directory `d`, made later than `p`.
pub record IsLink (v : Vfs) (d p q : Ptr) : Type 0 where
  pub node : Node
  pub holds : v.nodes q ≡ some node
  pub later : p < q
  pub parent : node.parent ≡ d

-- The pointers lead to nodes, and forward in the order in which the nodes were made.
pub record IsTree (v : Vfs) : Type 0 where
  pub null_free : v.nodes null ≡ none
  pub root_live : Live v v.root
  pub below_fresh : (p : Ptr) (n : Node) → v.nodes p ≡ some n → p < v.fresh
  pub child_link : (p : Ptr) (n : Node) → v.nodes p ≡ some n → n.child ≢ null → IsLink v p p n.child
  pub sibling_link :
      (p : Ptr) (n : Node) → v.nodes p ≡ some n → n.sibling ≢ null → IsLink v n.parent p n.sibling
  pub parent_live : (p : Ptr) (n : Node) → v.nodes p ≡ some n → n.parent ≢ null → Live v n.parent
