-- ===== src/Stdio/Chars.antt =====
-- Single characters and lines.
use umka_os.Base.{
  ◌+◌, ◌-◌, ◌≤◌, ◌<◌, ◌≡◌, refl, ap, none, some, [], ◌∷◌, ◌++◌, arith, length, min, take, drop,
  Text, ok, append_assoc,
}
use umka_os.Vfs.{Vfs, Node, put}
use umka_os.Vfs.Change.{nodes-put_self}
use umka_os.Vfs.Stream.{word, Stream}
use umka_os.Vfs.Stream.Read.{read-take}
use umka_os.Vfs.Stream.Write.{grown, write-append}
use umka_os.Stdio.{char_or_eof, fgetc, fputc, puts}

-- In a file of fewer than 2 ^ 32 bytes, from a position at or before the end, `fgetc` returns the
-- next byte as a signed character and moves behind it, and at the end it returns `EOF`, which is 0.
pub fgetc-next :
    (v : Vfs) (s : Stream) (n : Node)
    → v.nodes s.node ≡ some n
    → length n.content < word
    → s.i ≤ length n.content
    → fgetc v s
      ≡ ok (
        char_or_eof (take 1 (drop s.i n.content)),
        record s { i = s.i + min 1 (length n.content - s.i) },
      )
unfolding fgetc
fgetc-next v s n holds small h = rw (read-take v s n holds small 1 h) refl

-- With no callback and a position that does not wrap, `puts` adds the text and a newline at the end
-- of the file.
pub puts-append :
    (v : Vfs) (s : Stream) (n : Node) (text : Text)
    → v.nodes s.node ≡ some n
    → s.hook ≡ none
    → s.i + length text + 1 < word
    → puts v s text
      ≡ ok (
        put (put v s.node (grown n text)) s.node (grown n (text ++ b'\n' ∷ [])),
        record s { i = s.i + length text + 1 },
        [],
      )
unfolding puts fputc
puts-append v s n text holds quiet small =
    let s₁ : Stream = record s { i = s.i + length text } in
    let second =
      write-append (put v s.node (grown n text)) s₁ (grown n text)
        (nodes-put_self v s.node (grown n text)) (b'\n' ∷ []) quiet small in
    rw (write-append v s n holds text quiet (omega arith), second)
      (ap
        (λ l. ok (
          put (put v s.node (grown n text)) s.node (record n { content = l }),
          record s { i = s.i + length text + 1 },
          [],
        ))
        (append_assoc n.content text (b'\n' ∷ [])))
