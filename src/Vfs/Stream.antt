-- ===== src/Vfs/Stream.antt =====
-- Streams of src/mock_libc/vfs.c: opening, reading, writing, seeking and flushing. A stream is an
-- object of its own, so an operation returns the stream that it leaves.
pub mod Read
pub mod Write
pub mod Sequence
pub mod RoundTrip
use umka_os.Base.{
  ℕ, ◌+◌, ◌-◌, ◌%◌, ◌^◌, Bool, true, false, ◌||◌, Option, none, some, List, [], ◌∷◌, ◌++◌, ◌==◌,
  ltb, leb, if◌then◌else◌, length, take, drop, Text, Res, ok, fault, ◌>>=◌,
}
use umka_os.Vfs.{Ptr, null, Node, Vfs, put}
use umka_os.Vfs.Path.{get_path}
use umka_os.Vfs.Tree.{create}

-- `size_t` has 32 bits.
abbrev pub word : ℕ
word = 2 ^ 32

-- `hook` is the callback with its data, a number that names it; none for `flush == NULL`.
pub record Stream : Type 0 where
  pub node : Ptr
  pub hook : Option ℕ
  pub flushindex : ℕ
  pub i : ℕ

-- A call of the callback: what was passed on, and to whom.
abbrev pub Event : Type 0
Event = ℕ × List ℕ

abbrev pub new_stream : Ptr → Stream
new_stream p = record { node = p; hook = none; flushindex = 0; i = 0 }

-- The loop of `vfsOpen` over the mode: none if it has an `a`, else whether it has a `w`.
unfoldable pub scan_mode : Text → Bool → Option Bool
scan_mode [] write = some write
scan_mode (c ∷ perm) write =
    let rest = scan_mode perm (if c == b'w' then true else write) in
    if c == b'a' then none else rest

-- `vfsSetData`
unfoldable pub set_data : Vfs → Ptr → List ℕ → Res Vfs
set_data v p bytes = elim (v.nodes p) [
  | none ↦ fault
  | some n ↦ ok (put v p (record n { content = bytes }))
]

-- `vfsClearData`
unfoldable pub clear : Vfs → Ptr → Res Vfs
clear v p = elim (v.nodes p) [ none ↦ fault | some n ↦ ok (put v p (record n { content = [] })) ]

-- The node that `vfsOpen` opens; null for none.
unfoldable pub open_node : Vfs → Text → Bool → Res (Vfs × Ptr)
open_node v path write = get_path v path false >>= λ p.
    if p == null then (if write then create v path else ok (v, null)) else ok (v, p)

unfoldable pub open_stream : Vfs → Ptr → Bool → Res (Vfs × Option Stream)
open_stream v p write =
    if p == null
    then ok (v, none)
    else if write
    then (clear v p >>= λ w. ok (w, some (new_stream p)))
    else ok (v, some (new_stream p))

-- `vfsOpen`; no stream for NULL.
unfoldable pub fopen : Vfs → Text → Text → Res (Vfs × Option Stream)
unfolding scan_mode open_stream
fopen v path perm = elim (scan_mode perm false) [
  | none ↦ ok (v, none)
  | some write ↦ open_node v path write >>= λ (w, p). open_stream w p write
]

-- `memcpy` of `count` bytes at `at`, a fault past the end.
unfoldable pub copy_out : List ℕ → ℕ → ℕ → Res (List ℕ)
copy_out content at count =
    if leb (at + count) (length content) || (count == 0)
    then ok (take count (drop at content))
    else fault

-- `readsize` of `vfsRead`; the subtraction wraps.
unfoldable pub read_size : ℕ → ℕ → ℕ → ℕ
read_size datasize i size =
    let readsize = (datasize + word - i) % word in if ltb size readsize then size else readsize

-- `vfsRead`
unfoldable pub read : Vfs → Stream → ℕ → Res (List ℕ × Stream)
read v s size = elim (v.nodes s.node) [
  | none ↦ fault
  | some n ↦
      let count = read_size (length n.content) s.i size in
      copy_out n.content s.i count >>= λ bytes. ok (bytes, record s { i = (s.i + count) % word })
]

-- `vfsAppendData`
unfoldable pub append : Vfs → Ptr → List ℕ → Res Vfs
append v p bytes = elim (v.nodes p) [
  | none ↦ fault
  | some n ↦ ok (put v p (record n { content = n.content ++ bytes }))
]

-- `vfsFlush` on a stream with a callback.
unfoldable pub flush_hook : Vfs → Stream → ℕ → Res (Stream × List Event)
flush_hook v s h =
    if ltb s.flushindex s.i
    then elim (v.nodes s.node) [
      | none ↦ fault
      | some n ↦ copy_out n.content s.flushindex (s.i - s.flushindex) >>= λ bytes.
          ok (record s { flushindex = s.i }, (h, bytes) ∷ [])
    ]
    else ok (s, [])

-- `vfsFlush`
unfoldable pub flush : Vfs → Stream → Res (Stream × List Event)
flush v s = elim s.hook [ none ↦ ok (s, []) | some h ↦ flush_hook v s h ]

-- `vfsWrite`; it returns the size of its input.
unfoldable pub write : Vfs → Stream → List ℕ → Res (Vfs × Stream × List Event)
write v s bytes = append v s.node bytes >>= λ w.
    flush w (record s { i = (s.i + length bytes) % word }) >>= λ (s', events). ok (w, s', events)

abbrev pub seek_set : ℕ
seek_set = 0

abbrev pub seek_cur : ℕ
seek_cur = 1

abbrev pub seek_end : ℕ
seek_end = 2

-- `vfsSeek`
unfoldable pub seek : Vfs → Stream → ℕ → ℕ → Res Stream
seek v s pos whence =
    if whence == seek_set
    then ok (record s { i = pos })
    else if whence == seek_cur
    then ok (record s { i = (s.i + pos) % word })
    else if whence == seek_end
    then elim (v.nodes s.node) [
      | none ↦ fault
      | some n ↦ ok (record s { i = (length n.content + pos) % word })
    ]
    else ok s

-- `vfsTell`
unfoldable pub tell : Stream → ℕ
tell s = s.i

-- `vfsEof`
unfoldable pub eof : Vfs → Stream → Res Bool
eof v s = elim (v.nodes s.node) [ none ↦ fault | some n ↦ ok (leb (length n.content) s.i) ]

-- `vfsHookFlush`
unfoldable pub hook_flush : Stream → ℕ → Stream
hook_flush s h = record s { hook = some h; flushindex = 0 }
