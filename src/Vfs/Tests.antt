-- ===== src/Vfs/Tests.antt =====
-- The file system on small trees: `vfsInit`, and a directory that `vfsCreate_` has made.
use umka_os.Base.{
  ℕ, sym, ◌∙◌, subst, update, take, fault, refl, ◌≡◌, ok, some, codes, true, false, List, [], ◌∷◌,
  arith, inl, ◌≢◌,
}
use umka_os.Vfs.{Ptr, null, Node, Vfs, IsTree, put}
use umka_os.Vfs.Path.{
  get_path, cut, basename, base_loop, push, walk, step, find_child, descend, drop_last,
}
use umka_os.CString.{same}
use umka_os.Vfs.Path.Total.{Arrives, get_path-Arrives}
use umka_os.Vfs.Tree.{
  create, create_missing, alloc, calloc_node, attach, set_child, blank, new_node,
}
use umka_os.Vfs.Stream.{Stream, Event, new_stream, fopen, read}
use umka_os.Vfs.Stream.Read.{read_each, sum, read-cases}
use umka_os.Vfs.Stream.Sequence.{write_each, joined, AllTo, passed, Written, write_each-passed}
use umka_os.Vfs.Stream.RoundTrip.{read-write}
use umka_os.Vfs.Tree.Init.{blank-IsTree, stdin-IsShort}
use umka_os.Vfs.Tree.Create.{IsShort, IsPlain, create-IsTree, create-stable, get_path-create}
use umka_os.Vfs.Tree.Unnamed.{create-missing}

stdin-IsPlain : IsPlain (basename (codes "$stdin"))
unfolding basename base_loop same
stdin-IsPlain = record { not_up = refl; not_stay = refl; not_empty = refl }

root_of_stdin : get_path blank (codes "$stdin") true ≡ ok 1
unfolding get_path cut push drop_last walk
root_of_stdin = refl

create-IsTree_example :
    (w : Vfs) × (p : Ptr) × (create blank (codes "$stdin") ≡ ok (w, p)) × IsTree w
create-IsTree_example = create-IsTree blank-IsTree (codes "$stdin") stdin-IsShort

get_path-create_example :
    (w : Vfs) × (p : Ptr) × (create blank (codes "$stdin") ≡ ok (w, p))
    × (p ≢ null)
    × (get_path w (codes "$stdin") false ≡ ok p)
get_path-create_example =
    get_path-create blank-IsTree (codes "$stdin") 1 stdin-IsShort stdin-IsPlain root_of_stdin
      (λ e. omega arith)

-- The tree with one file.
abbrev pub one_file : Vfs
one_file = put (calloc_node blank 1 (codes "$stdin")) 1 (record (new_node null []) { child = 2 })

abbrev pub file : Node
file = new_node 1 (codes "$stdin")

create-one_file : create blank (codes "$stdin") ≡ ok (one_file, 2)
unfolding create create_missing get_path cut push drop_last walk step descend find_child alloc
    attach set_child put update basename base_loop same calloc_node
create-one_file = refl

pub one_file-IsTree : IsTree one_file
one_file-IsTree =
    let (w, p, e, t) = create-IsTree blank-IsTree (codes "$stdin") stdin-IsShort in
    let same_tree : w ≡ one_file = cc (sym e ∙ create-one_file) in subst IsTree same_tree t

pub one_file-file : one_file.nodes 2 ≡ some file
unfolding put calloc_node update
one_file-file = refl

one_file-found : get_path one_file (codes "$stdin") false ≡ ok 2
unfolding get_path cut push walk step descend find_child same put calloc_node update
one_file-found = refl

create-stable_example : get_path one_file [] false ≡ ok 1
unfolding get_path cut push walk
create-stable_example =
    create-stable blank-IsTree (codes "$stdin") [] false 1 2 stdin-IsShort create-one_file refl
      (λ e. omega arith)

slashed-IsShort : IsShort (codes "a/")
unfolding cut push basename base_loop
slashed-IsShort = record { components = omega arith; name = omega arith }

create-missing_example :
    (w : Vfs) × (p : Ptr) × (create blank (codes "a/") ≡ ok (w, p))
    × (p ≢ null)
    × (get_path w (codes "a/") false ≡ ok null)
unfolding get_path cut push drop_last walk step descend find_child same update basename base_loop
create-missing_example =
    create-missing blank-IsTree (codes "a/") 1 slashed-IsShort (inl refl) refl refl
      (λ e. omega arith)

get_path-Arrives_example : Arrives one_file (get_path one_file (codes "../x") false)
unfolding cut push
get_path-Arrives_example = get_path-Arrives one_file-IsTree (codes "../x") false (omega arith)

-- The stream at the start of the file, and one with a callback.
abbrev pub stream : Stream
stream = new_stream 2

abbrev hooked : Stream
hooked = record stream { hook = some 7 }

abbrev chunks : List (List ℕ)
chunks = (1 ∷ 2 ∷ []) ∷ (3 ∷ []) ∷ []

abbrev pub full_file : Vfs
full_file = put one_file 2 (record file { content = 1 ∷ 2 ∷ 3 ∷ [] })

pub full_file-file : full_file.nodes 2 ≡ some (record file { content = 1 ∷ 2 ∷ 3 ∷ [] })
unfolding put update
full_file-file = refl

read-write_example :
    (v' w : Vfs) × (s s' r r' : Stream) × (fopen one_file (codes "$stdin") (codes "wb")
      ≡ ok (v', some s))
    × (write_each v' s chunks ≡ ok (w, s', []))
    × (fopen w (codes "$stdin") (codes "rb") ≡ ok (w, some r))
    × (read_each w r (2 ∷ 5 ∷ []) ≡ ok (take (sum (2 ∷ 5 ∷ [])) (joined chunks), r'))
    × IsTree w
unfolding joined
read-write_example =
    read-write one_file (codes "$stdin") 2 chunks (2 ∷ 5 ∷ []) one_file-IsTree one_file-found
      (λ e. omega arith) (file, one_file-file) (omega arith)

write_each-passed_example :
    (w : Vfs) × (s' : Stream) × (events : List Event) × (write_each one_file hooked chunks
      ≡ ok (w, s', events))
    × AllTo 7 events
    × (passed events ≡ joined chunks)
    × Written one_file 2 file (joined chunks) w
unfolding joined
write_each-passed_example =
    write_each-passed one_file hooked file 7 chunks one_file-file refl refl refl (omega arith)

-- A read of one byte from position 4 of a file of three bytes.
read-cases_example : read full_file (record stream { i = 4 }) 1 ≡ fault
read-cases_example =
    read-cases full_file (record stream { i = 4 }) (record file { content = 1 ∷ 2 ∷ 3 ∷ [] })
      full_file-file (omega arith) 1 (omega arith)
