-- ===== src/Stdio/Files.antt =====
-- The stdio functions of src/mock_libc/mock_libc.c over whole files. A descriptor is a stream.
use umka_os.Base.{
  ℕ, ◌+◌, ◌*◌, ◌/◌, ◌%◌, ◌<◌, ◌≡◌, ◌≢◌, refl, ◌∙◌, ap, Bool, Option, none, some, List, [], ◌++◌,
  ◌-◌, arith, ==-false, le→not_ltb, length, take, take_of_length_le, min, ◌==◌, ltb, if◌then◌else◌,
  Text, codes, Res, ok, fault, ◌>>=◌,
}
use umka_os.Vfs.{Vfs, Node, put}
use umka_os.Vfs.Change.{nodes-put_self}
use umka_os.Vfs.Tree.{remove}
use umka_os.Vfs.Stream.{word, Stream, Event, write, seek, seek_set, tell, eof, flush, fopen}
use umka_os.Vfs.Stream.Read.{read-take}
use umka_os.Vfs.Stream.Write.{grown, write-append}
use umka_os.Stdio.{fread}

-- `open`; `O_RDONLY` is 1.
unfoldable pub open_ : Vfs → Text → ℕ → Res (Vfs × Option Stream)
open_ v pathname flags =
    if flags % 2 == 1 then fopen v pathname (codes "rb") else fopen v pathname (codes "wb")

-- `vfsClose` with its `assert`; the stream is cleared and freed. `close` and `fclose` return 0.
unfoldable pub fclose : Option Stream → Res ℕ
fclose none = fault
fclose (some s) = ok 0

-- `lseek` and `fseek`, which return 0.
unfoldable pub fseek : Vfs → Stream → ℕ → ℕ → Res Stream
fseek v s offset whence = seek v s offset whence

unfoldable pub ftell : Stream → ℕ
ftell s = tell s

unfoldable pub rewind : Vfs → Stream → Res Stream
rewind v s = seek v s 0 seek_set

unfoldable pub feof : Vfs → Stream → Res Bool
feof v s = eof v s

unfoldable pub fflush : Vfs → Stream → Res (Stream × List Event)
fflush v s = flush v s

-- `ferror`
unfoldable pub ferror : Stream → ℕ
ferror s = 0

-- `remove`: 0, or -1 if there is no such node, with the new tree.
unfoldable pub remove_file : Vfs → Text → Res (Vfs × Bool)
remove_file v filename = remove v filename

-- `fwrite`, given the bytes from `ptr` on: the number of elements that it returns, and what
-- `vfsWrite` leaves. It divides by the size of an element.
unfoldable pub fwrite : Vfs → Stream → ℕ → ℕ → List ℕ → Res (ℕ × Vfs × Stream × List Event)
fwrite v s size nmemb ptr =
    let count = size * nmemb % word in
    if ltb (length ptr) count
    then fault
    else (write v s (take count ptr) >>= λ (w, s', events).
        if size == 0 then fault else ok (count / size, w, s', events))

mul_div : (a b : ℕ) → a ≢ 0 → a * b / a ≡ b
mul_div a b h = grind arith

-- To a stream with no callback at the start of an empty file, `fwrite` of some elements of a size that is
-- not 0, together fewer than 2 ^ 32 bytes, counts them all; and when the stream is rewound `fread` of
-- as many elements counts them all and gives the same bytes, and the position is behind them.
pub fread-fwrite :
    (v : Vfs) (s : Stream) (n : Node) (size nmemb : ℕ) (ptr : List ℕ)
    → v.nodes s.node ≡ some n
    → n.content ≡ []
    → s.hook ≡ none
    → s.i ≡ 0
    → size ≢ 0
    → length ptr ≡ size * nmemb
    → size * nmemb < word
    → (w : Vfs) × (s' r r' : Stream) × (fwrite v s size nmemb ptr ≡ ok (nmemb, w, s', []))
      × (rewind w s' ≡ ok r)
      × (fread w r size nmemb ≡ ok (nmemb, ptr, r'))
      × (ftell r' ≡ size * nmemb)
unfolding fwrite rewind seek fread ftell tell
fread-fwrite v s n size nmemb ptr holds empty quiet start nonzero long small =
    let count : size * nmemb % word ≡ size * nmemb = omega arith in
    let w = put v s.node (grown n ptr) in
    let s' : Stream = record s { i = s.i + length ptr } in
    let r : Stream = record s { i = 0 } in
    let whole : n.content ++ ptr ≡ ptr = rw empty refl in
    let fits : length (n.content ++ ptr) ≡ size * nmemb = ap (λ l. length l) whole ∙ long in
    let r' : Stream = record r { i = 0 + min (size * nmemb) (length (n.content ++ ptr) - 0) } in
    let read_back =
      read-take w r (grown n ptr) (nodes-put_self v s.node (grown n ptr)) (omega arith)
        (size * nmemb) (omega arith) in
    let all : take (size * nmemb) ptr ≡ ptr = take_of_length_le (size * nmemb) ptr (omega arith) in
    (
      w,
      s',
      r,
      r',
      rw
          (
            count,
            le→not_ltb (size * nmemb) (length ptr) (omega arith),
            all,
            write-append v s n holds ptr quiet (omega arith),
            ==-false size 0 nonzero,
            mul_div size nmemb nonzero,
          )
          refl,
      refl,
      rw
          (
            count,
            ==-false size 0 nonzero,
            read_back,
            ap (λ l. take (size * nmemb) l) whole,
            all,
            long,
            mul_div size nmemb nonzero,
          )
          refl,
      omega arith,
    )
