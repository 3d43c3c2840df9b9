-- ===== src/Vfs/Path/Search.antt =====
-- One round of the search among the children of a directory.
use umka_os.Base.{ℕ, suc, ◌≡◌, ◌≢◌, true, false, some, arith, Text, ok}
use umka_os.CString.{same}
use umka_os.Vfs.{Ptr, null, Node, Vfs}
use umka_os.Vfs.Path.{find_child, descend}

pub find_child-eq-null :
    (j : ℕ) (v : Vfs) (name : Text) (p : Ptr) (n : Node)
    → v.nodes p ≡ some n
    → p ≢ null
    → find_child (suc j) v name p ≡ ok null
    → (same n.filename name ≡ false) × (find_child j v name n.sibling ≡ ok null)
unfolding find_child
find_child-eq-null j v name p n e g h = ground arith

pub find_child-here :
    (j : ℕ) (v : Vfs) (name : Text) (p : Ptr) (n : Node)
    → v.nodes p ≡ some n
    → p ≢ null
    → same n.filename name ≡ true
    → find_child (suc j) v name p ≡ ok p
unfolding find_child
find_child-here j v name p n e g h = ground arith

pub find_child-next :
    (j : ℕ) (v : Vfs) (name : Text) (p : Ptr) (n : Node)
    → v.nodes p ≡ some n
    → p ≢ null
    → same n.filename name ≡ false
    → find_child (suc j) v name p ≡ find_child j v name n.sibling
unfolding find_child
find_child-next j v name p n e g h = ground arith

pub descend-eq :
    (v : Vfs) (d : Ptr) (name : Text) (n : Node)
    → v.nodes d ≡ some n
    → descend v d name ≡ find_child (suc v.fresh) v name n.child
unfolding descend
descend-eq v d name n e = rw (e, descend)
