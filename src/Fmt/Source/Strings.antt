-- ===== src/Fmt/Source/Strings.antt =====
-- A string as a stream: its characters from the offset on are what is left to read.
use umka_os.Base.{
  ℕ, zero, suc, ◌+◌, ◌≤◌, ◌<◌, ◌≡◌, refl, sym, ◌∙◌, ap, ◌⊎◌, inl, inr, none, some, List, [], ◌∷◌,
  arith, ltb, lt→ltb, length, get_elem?, take, drop, drop-drop, drop-min, length-take, Bool-cases,
  Text, ok,
}
use umka_os.Fmt.Source.{
  Source, mk_str_s, str_peek, at_offs, read_loop, str_read, Request, answers, text_peek, text_read,
  Refines, answers-Refines,
}

-- What is left to read.
abbrev pub rest : Source → Text
rest s = drop s.offs s.data_

-- The buffer has room for the string.
abbrev pub HasRoom : Source → Type 0
HasRoom s = length s.data_ ≤ s.size

abbrev moved : Source → ℕ → Source
moved s n = record s { offs = s.offs + n }

drop-cases :
    (xs : Text) (i : ℕ)
    → ((get_elem? xs i ≡ none) × (drop i xs ≡ []))
      ⊎ ((c : ℕ) × (get_elem? xs i ≡ some c) × (drop i xs ≡ c ∷ drop (i + 1) xs) × (i < length xs))
drop-cases [] zero = inl (refl, refl)
drop-cases [] (suc i) = inl (refl, refl)
drop-cases (x ∷ xs) zero = inr (x, refl, refl, omega arith)
drop-cases (x ∷ xs) (suc i) = elim (drop-cases xs i) [
  | inl h ↦ inl h
  | inr (c, e, f, lt) ↦
      let next : suc (i + 1) ≡ suc i + 1 = omega arith in
      inr (c, e, f ∙ ap (λ k. c ∷ drop k (x ∷ xs)) next, omega arith)
]

read_loop-take :
    (n : ℕ) (s : Source)
    → HasRoom s
    → read_loop s n ≡ (take n (rest s), moved s (length (take n (rest s))))
unfolding read_loop at_offs
read_loop-take zero s room = let here : s.offs + 0 ≡ s.offs = omega arith in rw here refl
read_loop-take (suc n) s room = elim (drop-cases s.data_ s.offs) [
  | inl (e, f) ↦
      let here : s.offs + 0 ≡ s.offs = omega arith in
      let stop : at_offs s ≡ none = elim (Bool-cases (ltb s.offs s.size)) [
        | inl lt ↦ rw (at_offs, lt) e
        | inr ge ↦ rw (at_offs, ge) refl
      ] in
      rw (read_loop, stop, f, here) refl
  | inr (c, e, f, lt) ↦
      let more : at_offs s ≡ some c = rw (at_offs, lt→ltb s.offs s.size (omega arith)) e in
      let next : s.offs + 1 + length (take n (drop (s.offs + 1) s.data_))
          ≡ s.offs + suc (length (take n (drop (s.offs + 1) s.data_))) =
        omega arith in
      rw (read_loop, more, read_loop-take n (moved s 1) room, f, next) refl
]

rest-moved : (n : ℕ) (s : Source) → rest (moved s (length (take n (rest s)))) ≡ drop n (rest s)
rest-moved n s =
    sym (drop-drop s.offs (length (take n (rest s))) s.data_)
    ∙ ap (λ k. drop k (rest s)) (length-take n (rest s))
    ∙ drop-min n (rest s)

str-Refines : Refines str_peek str_read rest HasRoom
unfolding str_peek str_read
str-Refines = record {
  peek_law = λ s n room. refl;
  read_law = λ s n room.
      (moved s (length (take n (rest s))), ap ok (read_loop-take n s room), rest-moved n s, room);
}

-- A string in a buffer that has room for it answers every sequence of peeks and reads, of any sizes,
-- as the text does that is shortened by each read: no read or peek passes the terminator, and the
-- characters from the offset on are what is left of the text.
pub answers-str :
    (requests : List Request) (str : Text) (size : ℕ)
    → length str ≤ size
    → (texts : List Text) × (s : Source) × (answers str_peek str_read requests (mk_str_s str size)
        ≡ ok (texts, s))
      × (answers text_peek text_read requests str ≡ ok (texts, rest s))
unfolding mk_str_s
answers-str requests str size room =
    answers-Refines str-Refines requests (record { data_ = str; offs = 0; size = size }) room
