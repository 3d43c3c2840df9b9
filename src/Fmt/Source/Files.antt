-- ===== src/Fmt/Source/Files.antt =====
-- A file as a stream: its bytes from the position on are what is left to read.
use umka_os.Base.{
  ℕ, ◌+◌, ◌-◌, ◌≤◌, ◌<◌, ◌≡◌, refl, sym, ◌∙◌, ap, some, List, arith, length, take, drop, drop-drop,
  drop-min, length-drop, min, Text, ok,
}
use umka_os.Vfs.{Node, Vfs, Ptr}
use umka_os.Vfs.Stream.{Stream, word, read, seek, tell}
use umka_os.Vfs.Stream.Read.{read-take}
use umka_os.Fmt.Source.{
  file_peek, file_read, Request, answers, text_peek, text_read, Refines, answers-Refines,
}

module _ (v : Vfs) (p : Ptr) (n : Node) (holds : v.nodes p ≡ some n)
    (small : length n.content < word) where
  -- What is left to read.
  abbrev pub left_in : Stream → Text
  left_in s = drop s.i n.content

  -- The stream is on the file, and not past its end.
  abbrev pub IsOn : Stream → Type 0
  IsOn s = (s.node ≡ p) × (s.i ≤ length n.content)

  read-left_in :
      (s : Stream) (size : ℕ)
      → IsOn s
      → read v s size
        ≡ ok (take size (left_in s), record s { i = s.i + min size (length n.content - s.i) })
  read-left_in s size (on, h) = read-take v s n (ap (λ q. v.nodes q) on ∙ holds) small size h

  file-Refines : Refines (file_peek v) (file_read v) left_in IsOn
  unfolding file_peek file_read seek tell
  file-Refines = record {
    peek_law = λ s size h. rw (read-left_in s size h) refl;
    read_law = λ s size (on, h). (
      record s { i = s.i + min size (length n.content - s.i) },
      read-left_in s size (on, h),
      sym (drop-drop s.i (min size (length n.content - s.i)) n.content)
          ∙ ap (λ k. drop (min size k) (left_in s)) (sym (length-drop s.i n.content))
          ∙ drop-min size (left_in s),
      (on, omega arith),
    );
  }

  -- A file of fewer than 2 ^ 32 bytes answers every sequence of peeks and reads, of any sizes and from
  -- any position in it, as the text of its bytes from there does that is shortened by each read:
  -- nothing faults, and a peek leaves the stream as it was.
  pub answers-file :
      (requests : List Request) (s : Stream)
      → IsOn s
      → (texts : List Text) × (s' : Stream) × (answers (file_peek v) (file_read v) requests s
          ≡ ok (texts, s'))
        × (answers text_peek text_read requests (left_in s) ≡ ok (texts, left_in s'))
  answers-file requests s on = answers-Refines file-Refines requests s on
