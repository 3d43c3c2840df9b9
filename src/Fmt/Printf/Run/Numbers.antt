-- ===== src/Fmt/Printf/Run/Numbers.antt =====
-- A number that `fmtvprintf` prints into a field is read back by `fmtParseLL`.
use umka_os.Base.{
  true, ℕ, zero, suc, ◌^◌, ◌≤◌, ◌<◌, ◌≡◌, refl, sym, ◌∙◌, ap, inl, inr, Bool, false, [], ◌∷◌, ◌++◌,
  append_assoc, append-nil, some, arith, lt→ltb, if◌then◌else◌, length, length-append,
  length-replicate, take_of_length_le, replicate, codes, Text, ok, ok_inj,
}
use umka_os.Base.Int.{pos, negsuc}
use umka_os.Fmt.{word, negative, negate, skip_spaces, parse_ll, sign_text, stringify_ll}
use umka_os.Fmt.Digits.{IsBase}
use umka_os.Fmt.RoundTrip.{Stops, stringify_ull-Printed, parse_ll-stringify_ll}
use umka_os.Fmt.Printf.{
  no_flags, set_flag, parse_flags, word32, word64, next_word32, to_int, parse_width,
  parse_precision, parse_double, parse_length, parse_spec,
}
use umka_os.Fmt.Printf.Argument.{Doubles, next_word64, fetch_signed, signed_number, number}
use umka_os.Fmt.Printf.Layout.{prefix, put_number}
use umka_os.Fmt.Printf.Layout.Shape.{layout, fill_for, zeros_for, put_number-layout}
use umka_os.Fmt.Printf.Run.{
  Printing, put, print_number, print_directive, print_letter, directive, run, fmtvprintf,
}

parse_ll-spaces :
    (k : ℕ) (text : Text) (base : ℕ) → parse_ll (replicate k b' ' ++ text) base ≡ parse_ll text base
unfolding parse_ll skip_spaces
parse_ll-spaces zero text base = refl
parse_ll-spaces (suc k) text base = parse_ll-spaces k text base

sign_text-le : (n : ℕ) (sign pad : Bool) → length (sign_text n sign pad) ≤ 1
unfolding sign_text
sign_text-le n sign pad = ground arith

pub stringify_ll-le :
    (upper sign pad : Bool) (base n : ℕ) (out : Text)
    → IsBase base
    → n < word
    → stringify_ll upper base sign pad n ≡ ok out
    → length out ≤ 63
unfolding stringify_ll
stringify_ll-le upper sign pad base n out b small e =
    let m = if negative n then negate n else n in
    let fits : m < word = ground arith in
    let (text, printed, p) = stringify_ull-Printed upper base m b fits in
    let whole : sign_text n sign pad ++ text ≡ out =
      ok_inj (sign_text n sign pad ++ text) out (rw printed at e) in
    rw (sym whole)
      (omega (arith, length-append (sign_text n sign pad) text, sign_text-le n sign pad, p.fits))

-- A number in a field with no flags and no precision.
pub field :
    (w : ℕ) (text : Text)
    → w < 2 ^ 31
    → length text ≤ 63
    → put_number no_flags false (some 10) (pos w) (negsuc 0) false text
      ≡ ok (replicate (fill_for (pos w) [] 0 text) b' ' ++ text)
unfolding prefix
field w text small short =
    let none_missing : zeros_for (negsuc 0) false text ≡ 0 = omega arith in
    let spaces : Text = replicate (fill_for (pos w) [] 0 text) b' ' in
    put_number-layout no_flags false (some 10) (pos w) (negsuc 0) false text [] refl small
      (omega arith) (inr (inr (inl refl)))
    ∙ ap (λ z. ok (layout no_flags [] (fill_for (pos w) [] z text) z text)) none_missing
    ∙ rw (append-nil spaces, append-nil spaces) refl

fmtvprintf-layout :
    {D : Type 0} (d : Doubles D) (told : ℕ → ℕ) (w n : ℕ) (text : Text)
    → w < 2 ^ 31
    → stringify_ll false 10 false false n ≡ ok text
    → length text ≤ 63
    → fmtvprintf d told (codes "%*lld") (word32 w ∷ word64 n ∷ [])
      ≡ ok (record {
        out = replicate (fill_for (pos w) [] 0 text) b' ' ++ text;
        args = [];
        stores = [];
        written = true;
      })
unfolding fmtvprintf run directive parse_spec parse_flags set_flag parse_width next_word32 to_int
    parse_precision parse_length parse_double print_letter print_directive print_number number
    signed_number fetch_signed next_word64 put prefix
fmtvprintf-layout d told w n text small e short =
    rw
      (
        lt→ltb w (2 ^ 31) small,
        e,
        take_of_length_le 127 text (omega arith),
        field w text small short,
      )
      refl

-- A signed 64-bit number that `%*lld` prints with a field width from 0 is read back by
-- `fmtParseLL`, which passes over the spaces in front, and the text behind it, which does not go on
-- with a digit, is left; the field has the width, or the length of the number where that is more.
pub parse_ll-fmtvprintf :
    {D : Type 0} (d : Doubles D) (told : ℕ → ℕ) (w n : ℕ) (tail : Text)
    → w < 2 ^ 31
    → n < word
    → Stops 10 tail
    → (s : Printing D) × (fmtvprintf d told (codes "%*lld") (word32 w ∷ word64 n ∷ []) ≡ ok s)
      × (parse_ll (s.out ++ tail) 10 ≡ ok (n, tail))
      × (w ≤ length s.out)
parse_ll-fmtvprintf d told w n tail small fits stop =
    let (text, printed, read) =
      parse_ll-stringify_ll false false false 10 n tail (inr (inl refl)) fits stop in
    let short = stringify_ll-le false false false 10 n text (inr (inl refl)) fits printed in
    let k = fill_for (pos w) [] 0 text in
    (
      record { out = replicate k b' ' ++ text; args = []; stores = []; written = true },
      fmtvprintf-layout d told w n text small printed short,
      ap (λ t. parse_ll t 10) (append_assoc (replicate k b' ') text tail)
          ∙ parse_ll-spaces k (text ++ tail) 10
          ∙ read,
      omega (arith, length-append (replicate k b' ') text, length-replicate {A = ℕ} k b' '),
    )
