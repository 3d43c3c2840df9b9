-- ===== src/Fmt/Source.antt =====
-- The streams that src/mock_libc/fmt.c reads from: a string (`_strPeek`, `_strRead`, `_strTell`) and a
-- file (`_vfsPeek`, `_vfsRead`, `_vfsTell`), and what they promise the parsers: to be a text that is
-- left to read.
pub mod Strings
pub mod Files
use umka_os.Base.{
  ℕ, zero, suc, ◌+◌, ◌^◌, ◌≡◌, refl, ◌∙◌, ap, Option, none, some, List, [], ◌∷◌, ltb, if◌then◌else◌,
  get_elem?, take, drop, Text, Res, ok, fault, ◌>>=◌,
}
use umka_os.Vfs.{Vfs}
use umka_os.Vfs.Stream.{Stream, read, seek, seek_set, tell}

-- The fields of `RWStream` for a string; `data_` is the string up to its terminator.
pub record Source : Type 0 where
  pub data_ : Text
  pub offs : ℕ
  pub size : ℕ

-- `rwStreamMkStrS`
unfoldable pub mk_str_s : Text → ℕ → Source
mk_str_s str size = record { data_ = str; offs = 0; size = size }

-- `rwStreamMkStr`; `1 << 31` as a `size_t`.
unfoldable pub mk_str : Text → Source
unfolding mk_str_s
mk_str str = mk_str_s str (2 ^ 31)

-- `_strPeek`: the characters up to the terminator, at most `size`.
unfoldable pub str_peek : Source → ℕ → Res (Text × Source)
str_peek s size = ok (take size (drop s.offs s.data_), s)

-- The character at the offset, if there is one to read.
unfoldable pub at_offs : Source → Option ℕ
at_offs s = if ltb s.offs s.size then get_elem? s.data_ s.offs else none

-- The loop of `_strRead`.
unfoldable pub read_loop : Source → ℕ → Text × Source
read_loop s zero = ([], s)
read_loop s (suc size) = elim (at_offs s) [
  | none ↦ ([], s)
  | some c ↦ let (rest, s') = read_loop (record s { offs = s.offs + 1 }) size in (c ∷ rest, s')
]

-- `_strRead`
unfoldable pub str_read : Source → ℕ → Res (Text × Source)
str_read s size = ok (read_loop s size)

-- `_strTell`
unfoldable pub str_tell : Source → ℕ
str_tell s = s.offs

-- `_vfsPeek`
unfoldable pub file_peek : Vfs → Stream → ℕ → Res (Text × Stream)
file_peek v s size =
    read v s size >>= λ (bytes, s'). seek v s' (tell s) seek_set >>= λ s''. ok (bytes, s'')

-- `_vfsRead`
unfoldable pub file_read : Vfs → Stream → ℕ → Res (Text × Stream)
file_read v s size = read v s size

-- What a parser asks of a stream.
pub data Request : Type 0 where
  peeks reads : ℕ → Request

-- The answers to requests, one after the other, given the two operations of a stream.
unfoldable pub answers :
    {S : Type 0}
    → (S → ℕ → Res (Text × S))
    → (S → ℕ → Res (Text × S))
    → List Request
    → S
    → Res (List Text × S)
answers peek_ read_ [] s = ok ([], s)
answers peek_ read_ (peeks n ∷ requests) s = peek_ s n >>= λ (text, s').
    answers peek_ read_ requests s' >>= λ (texts, s''). ok (text ∷ texts, s'')
answers peek_ read_ (reads n ∷ requests) s = read_ s n >>= λ (text, s').
    answers peek_ read_ requests s' >>= λ (texts, s''). ok (text ∷ texts, s'')

-- The same on a text that is left to read.
abbrev pub text_peek : Text → ℕ → Res (Text × Text)
text_peek text n = ok (take n text, text)

abbrev pub text_read : Text → ℕ → Res (Text × Text)
text_read text n = ok (take n text, drop n text)

-- A stream whose valid states stand for the text `rest` that is left.
pub record Refines {S : Type 0} (peek_ read_ : S → ℕ → Res (Text × S)) (rest : S → Text)
    (IsValid : S → Type 0) : Type 0 where
  pub peek_law : (s : S) (n : ℕ) → IsValid s → peek_ s n ≡ ok (take n (rest s), s)
  pub read_law :
      (s : S) (n : ℕ)
      → IsValid s
      → (s' : S) × (read_ s n ≡ ok (take n (rest s), s')) × (rest s' ≡ drop n (rest s)) × IsValid s'

-- Such a stream answers every sequence of requests as the text does.
module _ {S : Type 0} {peek_ read_ : S → ℕ → Res (Text × S)} {rest : S → Text}
    {IsValid : S → Type 0} (r : Refines peek_ read_ rest IsValid) where
  pub answers-Refines :
      (requests : List Request) (s : S)
      → IsValid s
      → (texts : List Text) × (s' : S) × (answers peek_ read_ requests s ≡ ok (texts, s'))
        × (answers text_peek text_read requests (rest s) ≡ ok (texts, rest s'))
  unfolding answers
  answers-Refines [] s h = ([], s, refl, refl)
  answers-Refines (peeks n ∷ requests) s h =
      let (texts, s', e, f) = answers-Refines requests s h in
      (take n (rest s) ∷ texts, s', rw (r.peek_law s n h, e) refl, rw f refl)
  answers-Refines (reads n ∷ requests) s h =
      let (s1, e, left, h') = r.read_law s n h in
      let (texts, s', f, g) = answers-Refines requests s1 h' in
      (take n (rest s) ∷ texts, s', rw (e, f) refl, rw (← left, g) refl)
