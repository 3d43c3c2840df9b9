-- ===== src/Vfs/Stream/Write.antt =====
-- `vfsWrite` and `vfsFlush`: what is stored, and what reaches the callback.
use umka_os.Base.{
  ℕ, ◌+◌, ◌-◌, ◌<◌, ◌%◌, ◌≡◌, ◌≢◌, refl, none, some, List, [], ◌∷◌, ◌++◌, arith, length, take, drop,
  length-append, drop-append, take_of_length_le, ok,
}
use umka_os.Vfs.{Ptr, Node, Vfs, put}
use umka_os.Vfs.Change.{nodes-put_self}
use umka_os.Vfs.Stream.{Stream, word, copy_out, append, flush_hook, flush, write}

-- The node with bytes added at its end.
abbrev pub grown : Node → List ℕ → Node
grown n bytes = record n { content = n.content ++ bytes }

pub append-put :
    (v : Vfs) (p : Ptr) (n : Node) (bytes : List ℕ)
    → v.nodes p ≡ some n
    → append v p bytes ≡ ok (put v p (grown n bytes))
unfolding append
append-put v p n bytes e = rw (append, e)

-- What is behind the old content of a grown file.
copy_out-behind :
    (content bytes : List ℕ) (at count : ℕ)
    → at ≡ length content
    → count ≡ length bytes
    → copy_out (content ++ bytes) at count ≡ ok bytes
unfolding copy_out
copy_out-behind content bytes at count e f =
    let whole : take count (drop at (content ++ bytes)) ≡ bytes =
      rw (e, f, drop-append content bytes) (take_of_length_le (length bytes) bytes (omega arith)) in
    ground (arith, length-append content bytes, whole)

length-pos : {A : Type 0} (xs : List A) → xs ≢ [] → 0 < length xs
length-pos [] h = absurd (h refl)
length-pos (x ∷ xs) h = omega arith

module _ (v : Vfs) (s : Stream) (n : Node) (holds : v.nodes s.node ≡ some n) where
  -- With no callback a write adds its bytes at the end of the file, wherever the position is.
  pub write-append :
      (bytes : List ℕ)
      → s.hook ≡ none
      → s.i + length bytes < word
      → write v s bytes ≡ ok (put v s.node (grown n bytes), record s { i = s.i + length bytes }, [])
  unfolding write flush
  write-append bytes quiet small = ground (arith, append-put v s.node n bytes holds)

  -- With a callback a write at the end, with nothing left to flush, passes just its bytes on.
  pub write-flush :
      (bytes : List ℕ) (h : ℕ)
      → s.hook ≡ some h
      → s.i ≡ length n.content
      → s.flushindex ≡ s.i
      → s.i + length bytes < word
      → bytes ≢ []
      → write v s bytes
        ≡ ok (
          put v s.node (grown n bytes),
          record s { i = s.i + length bytes; flushindex = s.i + length bytes },
          (h, bytes) ∷ [],
        )
  unfolding write flush flush_hook
  write-flush bytes h hooked at_end flushed small some_bytes = ground (
    arith,
    append-put v s.node n bytes holds,
    nodes-put_self v s.node (grown n bytes),
    length-pos bytes some_bytes,
    copy_out-behind n.content bytes s.flushindex ((s.i + length bytes) % word - s.flushindex),
  )
