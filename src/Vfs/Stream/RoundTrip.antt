-- ===== src/Vfs/Stream/RoundTrip.antt =====
-- A file that is written and closed reads back the same.
use umka_os.Base.{
  ℕ, ◌<◌, ◌≡◌, ◌≢◌, refl, ◌∙◌, ap, false, some, List, [], arith, length, take, Text, codes, ok,
}
use umka_os.Vfs.{Ptr, null, Node, Vfs, Live, put, IsTree}
use umka_os.Vfs.Change.{nodes-put_self, put-IsTree, put-Extends, Extends-trans}
use umka_os.Vfs.Path.{get_path}
use umka_os.Vfs.Path.Stable.{get_path-stable}
use umka_os.Vfs.Stream.{Stream, word, new_stream, set_data, clear, open_node, fopen}
use umka_os.Vfs.Stream.Read.{read_each, read_each-take, sum}
use umka_os.Vfs.Stream.Sequence.{write_each, joined, write_each-Written}

abbrev pub emptied : Node → Node
emptied n = record n { content = [] }

pub fopen-wb :
    (v : Vfs) (path : Text) (p : Ptr) (n : Node)
    → get_path v path false ≡ ok p
    → p ≢ null
    → v.nodes p ≡ some n
    → fopen v path (codes "wb") ≡ ok (put v p (emptied n), some (new_stream p))
unfolding fopen open_node clear
fopen-wb v path p n e g holds = ground arith

pub fopen-rb :
    (v : Vfs) (path : Text) (p : Ptr)
    → get_path v path false ≡ ok p
    → p ≢ null
    → fopen v path (codes "rb") ≡ ok (v, some (new_stream p))
unfolding fopen open_node
fopen-rb v path p e g = ground arith

-- Fewer than 2 ^ 32 bytes, written in any chunks to an existing file of a tree that is opened with
-- `wb`, are what the file opened again with `rb` gives, read in pieces of any sizes. The tree stays
-- a tree.
pub read-write :
    (v : Vfs) (path : Text) (p : Ptr) (chunks : List (List ℕ)) (sizes : List ℕ)
    → IsTree v
    → get_path v path false ≡ ok p
    → p ≢ null
    → Live v p
    → length (joined chunks) < word
    → (v' w : Vfs) × (s s' r r' : Stream) × (fopen v path (codes "wb") ≡ ok (v', some s))
      × (write_each v' s chunks ≡ ok (w, s', []))
      × (fopen w path (codes "rb") ≡ ok (w, some r))
      × (read_each w r sizes ≡ ok (take (sum sizes) (joined chunks), r'))
      × IsTree w
read-write v path p chunks sizes t e g (n, holds) small =
    let v' = put v p (emptied n) in
    let at_p = nodes-put_self v p (emptied n) in
    let t' =
      put-IsTree v p n (emptied n) holds refl t (t.child_link p n holds)
        (t.sibling_link p n holds) in
    let x =
      put-Extends v p n (emptied n) holds
        (record { filename = refl; parent = refl; child = λ _. refl; sibling = λ _. refl }) in
    let (w, s', f, d) =
      write_each-Written v' (new_stream p) (emptied n) chunks at_p refl (omega arith) in
    let found = get_path-stable t (Extends-trans x d.extends) path false p e g in
    let (r', read_back) =
      read_each-take w (new_stream p) d.node sizes d.holds
        (omega (arith, ap (λ l. length l) d.content)) (omega arith) in
    (
      v',
      w,
      new_stream p,
      s',
      new_stream p,
      r',
      fopen-wb v path p n e g holds,
      f,
      fopen-rb w path p found g,
      read_back ∙ ap (λ l. ok (take (sum sizes) l, r')) d.content,
      d.tree t',
    )

-- Fewer than 2 ^ 32 bytes that `vfsSetData` puts into a node of a tree are what a new stream of it
-- gives, read in pieces of any sizes. The tree stays a tree.
pub read-set_data :
    (v : Vfs) (p : Ptr) (n : Node) (bytes : List ℕ) (sizes : List ℕ)
    → IsTree v
    → v.nodes p ≡ some n
    → length bytes < word
    → (w : Vfs) × (r : Stream) × (set_data v p bytes ≡ ok w)
      × (read_each w (new_stream p) sizes ≡ ok (take (sum sizes) bytes, r))
      × IsTree w
unfolding set_data
read-set_data v p n bytes sizes t holds small =
    let m : Node = record n { content = bytes } in
    let (r, read_back) =
      read_each-take (put v p m) (new_stream p) m sizes (nodes-put_self v p m) (omega arith)
        (omega arith) in
    (
      put v p m,
      r,
      rw (set_data, holds) refl,
      read_back,
      put-IsTree v p n m holds refl t (t.child_link p n holds) (t.sibling_link p n holds),
    )
