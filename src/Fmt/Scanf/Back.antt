-- ===== src/Fmt/Scanf/Back.antt =====
-- What `fmtvprintf` prints with `%*d`, `fmtvscanf` reads back with `%d`.
use umka_os.Base.{
  true, ℕ, zero, suc, ◌%◌, ◌^◌, ◌≤◌, ◌<◌, ◌≡◌, refl, sym, ◌∙◌, ap, inl, inr, true, false, [], ◌∷◌,
  ◌++◌, append-nil, arith, ◌==◌, lt→ltb, Bool-cases, length, replicate, take_of_length_le, codes,
  Text, ok, ok_inj,
}
use umka_os.Base.Int.{pos}
use umka_os.Fmt.{word, negative, negate, digit_value, is_digit, parse_ll, sign_text, stringify_ll}
use umka_os.Fmt.RoundTrip.{Starts, stringify_ull-Printed, parse_ll-stringify_ll}
use umka_os.Fmt.Printf.{
  set_flag, parse_flags, word32, next_word32, to_int, parse_width, parse_precision, parse_length,
  parse_spec,
}
use umka_os.Fmt.Printf.Argument.{Doubles, sign_extend, fetch_signed, signed_number, number}
use umka_os.Fmt.Printf.Layout.Shape.{fill_for}
use umka_os.Fmt.Printf.Run.{
  Printing, put, print_number, print_directive, print_letter, directive, run, fmtvprintf,
}
use umka_os.Fmt.Printf.Run.Numbers.{field, stringify_ll-le}
use umka_os.Fmt.Scanf.{
  Reals, is_space, skip_whitespaces, bits, store, convert_signed, convert, stops, scan_format,
  fmtvscanf,
}

sign_extend-lt : (n : ℕ) → n < 2 ^ 32 → sign_extend 32 n < word
unfolding sign_extend
sign_extend-lt n h = ground arith

sign_extend-low : (n : ℕ) → n < 2 ^ 32 → sign_extend 32 n % 2 ^ 32 ≡ n
unfolding sign_extend
sign_extend-low n h = ground arith

digit_not_space : (c : ℕ) → is_digit 10 c ≡ true → is_space c ≡ false
unfolding is_digit digit_value is_space
digit_not_space c h = ground arith

-- A printed number begins with a character that is no whitespace.
stringify_ll-Starts :
    (n : ℕ) (out : Text)
    → n < word
    → stringify_ll false 10 false false n ≡ ok out
    → (c : ℕ) × (tail : Text) × (out ≡ c ∷ tail) × (is_space c ≡ false)
unfolding stringify_ll sign_text is_space
stringify_ll-Starts n out small e = elim (Bool-cases (negative n)) [
  | inl below ↦
      let (text, printed, p) =
        stringify_ull-Printed false 10 (negate n) (inr (inl refl)) (omega arith) in
      (b'-', text, sym (ok_inj (b'-' ∷ text) out (rw (stringify_ll, below, printed) at e)), refl)
  | inr above ↦
      let (text, printed, p) = stringify_ull-Printed false 10 n (inr (inl refl)) small in
      first text (ok_inj text out (rw (stringify_ll, above, printed) at e)) p.starts
]
  where
    first :
        (text : Text)
        → text ≡ out
        → Starts 10 text
        → (c : ℕ) × (tail : Text) × (out ≡ c ∷ tail) × (is_space c ≡ false)
    first [] same h = absurd h
    first (c ∷ tail) same h = (c, tail, sym same, digit_not_space c h)

skip_whitespaces-spaces :
    (k : ℕ) (text : Text) → skip_whitespaces (replicate k b' ' ++ text) ≡ skip_whitespaces text
unfolding skip_whitespaces is_space
skip_whitespaces-spaces zero text = refl
skip_whitespaces-spaces (suc k) text = skip_whitespaces-spaces k text

print_int :
    {D : Type 0} (d : Doubles D) (told : ℕ → ℕ) (w n : ℕ) (text : Text)
    → w < 2 ^ 31
    → stringify_ll false 10 false false (sign_extend 32 n) ≡ ok text
    → length text ≤ 63
    → fmtvprintf d told (codes "%*d") (word32 w ∷ word32 n ∷ [])
      ≡ ok (record {
        out = replicate (fill_for (pos w) [] 0 text) b' ' ++ text;
        args = [];
        stores = [];
        written = true;
      })
unfolding fmtvprintf run directive parse_spec parse_flags set_flag parse_width next_word32 to_int
    parse_precision parse_length print_letter print_directive print_number number signed_number
    fetch_signed put
print_int d told w n text small e short =
    rw
      (
        lt→ltb w (2 ^ 31) small,
        e,
        take_of_length_le 127 text (omega arith),
        field w text small short,
      )
      refl

scan_int_back :
    {D : Type 0} (r : Reals D) (k p n m : ℕ) (c : ℕ) (tail : Text)
    → is_space c ≡ false
    → parse_ll (c ∷ tail) 10 ≡ ok (m, [])
    → m % 2 ^ 32 ≡ n
    → fmtvscanf r (replicate k b' ' ++ (c ∷ tail)) (codes "%d") (p ∷ [])
      ≡ ok (record { rest = []; pointers = []; num = 1; stored = (p, bits n) ∷ [] })
unfolding fmtvscanf scan_format convert convert_signed store stops skip_whitespaces
scan_int_back r k p n m c tail word_start read low =
    let moved : (0 == suc (length tail)) ≡ false = ground arith in
    rw (skip_whitespaces-spaces k (c ∷ tail), word_start, read, low, moved) refl

-- What `%*d` prints for an `int`, given as its 32 bits, with a field width from 0, `%d` reads back:
-- both calls end without a fault, the scan passes over the padding and reads everything, stores the
-- same 32 bits through its pointer, and counts one conversion.
pub fmtvscanf-fmtvprintf :
    {D : Type 0} (d : Doubles D) (told : ℕ → ℕ) (r : Reals D) (w n p : ℕ)
    → w < 2 ^ 31
    → n < 2 ^ 32
    → (s : Printing D) × (fmtvprintf d told (codes "%*d") (word32 w ∷ word32 n ∷ []) ≡ ok s)
      × (fmtvscanf r s.out (codes "%d") (p ∷ [])
          ≡ ok (record { rest = []; pointers = []; num = 1; stored = (p, bits n) ∷ [] }))
fmtvscanf-fmtvprintf d told r w n p wide small =
    let m = sign_extend 32 n in
    let m_fits = sign_extend-lt n small in
    let (text, printed, read) =
      parse_ll-stringify_ll false false false 10 m [] (inr (inl refl)) m_fits tt in
    let short = stringify_ll-le false false false 10 m text (inr (inl refl)) m_fits printed in
    let (c, tail, starts, no_space) = stringify_ll-Starts m text m_fits printed in
    let k = fill_for (pos w) [] 0 text in
    let back : parse_ll (c ∷ tail) 10 ≡ ok (m, []) =
      ap (λ t. parse_ll t 10) (sym starts ∙ sym (append-nil text)) ∙ read in
    (
      record { out = replicate k b' ' ++ text; args = []; stores = []; written = true },
      print_int d told w n text wide printed short,
      ap (λ t. fmtvscanf r (replicate k b' ' ++ t) (codes "%d") (p ∷ [])) starts
          ∙ scan_int_back r k p n m c tail no_space back (sign_extend-low n small),
    )
