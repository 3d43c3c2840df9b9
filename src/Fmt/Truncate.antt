-- ===== src/Fmt/Truncate.antt =====
-- A write to a string stream keeps what fits, with a terminator, and counts all that it was given.
use umka_os.Base.{
  ℕ, zero, suc, ◌+◌, ◌-◌, ◌≤◌, ◌≡◌, ◌≢◌, refl, sym, ◌∙◌, ap, inl, inr, [], ◌∷◌, ◌++◌, arith, true,
  ==-false, ltb, Bool-cases, ltb→lt, not_ltb→le, length, length-append, take, take_of_length_le,
  ◌%◌, append-nil, append_assoc, Text,
}
use umka_os.Fmt.{size_word, Writer, put_chars, str_write}

take-append_full : (k : ℕ) (xs ys : Text) → length xs ≡ k → take k (xs ++ ys) ≡ xs
take-append_full zero [] ys e = refl
take-append_full zero (x ∷ xs) ys e = absurd (omega arith)
take-append_full (suc k) [] ys e = absurd (omega arith)
take-append_full (suc k) (x ∷ xs) ys e = ap (λ l. x ∷ l) (take-append_full k xs ys (omega arith))

-- The loop keeps as many characters as there is room for.
put_chars-take :
    (size : ℕ) (out text : Text)
    → length out ≤ size - 1
    → put_chars size out text ≡ take (size - 1) (out ++ text)
unfolding put_chars
put_chars-take size out [] h =
    sym (ap (take (size - 1)) (append-nil out) ∙ take_of_length_le (size - 1) out h)
put_chars-take size out (c ∷ text) h = elim (Bool-cases (ltb (length out) (size - 1))) [
  | inl e ↦
      let room = ltb→lt (length out) (size - 1) e in
      rw (put_chars, e)
        (put_chars-take size (out ++ c ∷ []) text (omega (arith, length-append out (c ∷ [])))
          ∙ ap (take (size - 1)) (append_assoc out (c ∷ []) text))
  | inr e ↦
      let full = not_ltb→le (length out) (size - 1) e in
      rw (put_chars, e) (sym (take-append_full (size - 1) out (c ∷ text) (omega arith)))
]

-- The stream after a text of any length.
abbrev pub kept : Writer → Text → Writer
kept s text = record {
  data_ = take (s.size - 1) (s.data_ ++ text);
  size = s.size;
  supposedoffs = (s.supposedoffs + length text) % size_word;
  ended = true;
}

pub str_write-kept :
    (s : Writer) (text : Text)
    → s.size ≢ 0
    → length s.data_ ≤ s.size - 1
    → str_write s text ≡ kept s text
unfolding str_write
str_write-kept s text pos h =
    rw (str_write, ==-false s.size 0 pos, put_chars-take s.size s.data_ text h) refl
