-- ===== src/Vfs/Stream/Read.antt =====
-- `vfsRead`: what it returns, and reading in pieces.
use umka_os.Base.{
  ◌&&◌, Bool-cases, zero-cases, not_ltb→le, ltb→lt, lt→ltb, ℕ, ◌+◌, ◌-◌, ◌≤◌, ◌<◌, ◌≡◌, refl, sym,
  ◌∙◌, inl, inr, ap, some, List, [], ◌∷◌, ◌++◌, arith, ltb, min, if◌then◌else◌, length, take, drop,
  Res, ok, fault, ◌>>=◌, take-append-take, drop-drop, take-min, drop-min, length-drop,
}
use umka_os.Vfs.{Node, Vfs}
use umka_os.Vfs.Stream.{Stream, word, copy_out, read_size, read}

copy_out-take :
    (content : List ℕ) (at count : ℕ)
    → at + count ≤ length content
    → copy_out content at count ≡ ok (take count (drop at content))
unfolding copy_out
copy_out-take content at count h = ground arith

take-left :
    (size i : ℕ) (content : List ℕ)
    → take (min size (length content - i)) (drop i content) ≡ take size (drop i content)
take-left size i content =
    ap (λ k. take (min size k) (drop i content)) (sym (length-drop i content))
    ∙ take-min size (drop i content)

module _ (v : Vfs) (s : Stream) (n : Node) (holds : v.nodes s.node ≡ some n)
    (small : length n.content < word) where
  read_size-min :
      (size : ℕ)
      → s.i ≤ length n.content
      → read_size (length n.content) s.i size ≡ min size (length n.content - s.i)
  unfolding read_size
  read_size-min size h = ground arith

  -- A read at or before the end returns the next `size` bytes, or those that are left, and moves
  -- the position behind them.
  pub read-take :
      (size : ℕ)
      → s.i ≤ length n.content
      → read v s size
        ≡ ok (
          take size (drop s.i n.content),
          record s { i = s.i + min size (length n.content - s.i) },
        )
  unfolding read copy_out
  read-take size h =
      rw
        (
          read,
          holds,
          read_size-min size h,
          copy_out-take n.content s.i (min size (length n.content - s.i)) (omega arith),
          take-left size s.i n.content,
        )
        (ap (λ k. ok (take size (drop s.i n.content), record s { i = k })) (omega arith))

  -- Past the end the unsigned subtraction wraps, and the copy runs out of the data.
  read_past_end :
      (size : ℕ) → length n.content < s.i → s.i < word → 0 < size → read v s size ≡ fault
  unfolding read copy_out read_size
  read_past_end size h h' pos = rw (read, holds) (ground arith)

  read_nothing : s.i < word → read v s 0 ≡ ok ([], record s { i = s.i + 0 })
  unfolding read copy_out read_size
  read_nothing h = rw (read, holds) (ground arith)

  -- In a file of fewer than 2 ^ 32 bytes, a read returns the next `size` bytes, or those that are left, and moves the position behind
  -- them, except that from past the end every read of one byte or more faults: there the
  -- subtraction of unsigned numbers wraps, and the copy runs over the end of the data.
  pub read-cases :
      (size : ℕ)
      → s.i < word
      → read v s size ≡ (
          if ltb (length n.content) s.i && ltb 0 size
          then fault
          else ok (
            take size (drop s.i n.content),
            record s { i = s.i + min size (length n.content - s.i) },
          ))
  read-cases size h = elim (Bool-cases (ltb (length n.content) s.i)) [
    | inr e ↦ rw (e, read-take size (not_ltb→le (length n.content) s.i e)) refl
    | inl e ↦ elim (zero-cases size) [
      | inl z ↦
          rw (e, z, read_nothing h) (ap (λ k. ok ([], record s { i = s.i + k })) (omega arith))
      | inr ne ↦
          rw (e, lt→ltb 0 size (omega arith))
            (read_past_end size (ltb→lt (length n.content) s.i e) h (omega arith))
    ]
  ]

-- Reads one after the other, and all that they return.
unfoldable pub read_each : Vfs → Stream → List ℕ → Res (List ℕ × Stream)
read_each v s [] = ok ([], s)
read_each v s (size ∷ sizes) =
    read v s size >>= λ (bytes, s'). read_each v s' sizes >>= λ (rest, s''). ok (bytes ++ rest, s'')

unfoldable pub sum : List ℕ → ℕ
sum [] = 0
sum (k ∷ ks) = k + sum ks

at : Stream → ℕ → Stream
at s k = record s { i = k }

-- From a position at or before the end of a file of fewer than 2 ^ 32 bytes, reading in pieces of
-- any sizes returns the bytes from there on, as many as the sum of the sizes or all that are left.
pub read_each-take :
    (v : Vfs) (s : Stream) (n : Node) (sizes : List ℕ)
    → v.nodes s.node ≡ some n
    → length n.content < word
    → s.i ≤ length n.content
    → (s' : Stream) × (read_each v s sizes ≡ ok (take (sum sizes) (drop s.i n.content), s'))
unfolding read_each sum
read_each-take v s n [] holds small h = (s, refl)
read_each-take v s n (size ∷ sizes) holds small h =
    let k = min size (length n.content - s.i) in
    let s₁ : Stream = record s { i = s.i + k } in
    let (s', e) = read_each-take v s₁ n sizes holds small (omega arith) in
    (
      s',
      rw (read-take v s n holds small size h, e)
          (ap (λ l. ok (l, s')) (glue s.i size (sum sizes) n.content)),
    )
  where
    glue :
        (i size rest : ℕ) (content : List ℕ)
        → take size (drop i content) ++ take rest (drop (i + min size (length content - i)) content)
          ≡ take (size + rest) (drop i content)
    glue i size rest content =
        ap (λ l. take size (drop i content) ++ take rest l)
          (sym (drop-drop i (min size (length content - i)) content)
            ∙ ap (λ k. drop (min size k) (drop i content)) (sym (length-drop i content))
            ∙ drop-min size (drop i content))
        ∙ take-append-take size rest (drop i content)
