-- ===== src/Fmt/RoundTrip.antt =====
-- What `fmtStringifyULL` and `fmtStringifyLL` print, `fmtParseULL` and `fmtParseLL` read back.
use umka_os.Base.{
  lt→ltb, ℕ, zero, suc, ◌+◌, ◌-◌, ◌*◌, ◌/◌, ◌%◌, ◌≤◌, ◌<◌, ◌≡◌, ◌≢◌, refl, ◌∙◌, ap, ◌⊎◌, inl, inr,
  Bool, true, false, ◌&&◌, [], ◌∷◌, ◌++◌, arith, ◌==◌, ==-false, leb, Bool-cases, zero-cases,
  length, length-append, take, drop-append, Text, ok, ◌>>=◌,
}
use umka_os.Fmt.{
  word, negative, negate, window, max_digits, digit_value, digit_char, is_digit, scan, detect_base,
  finish_num, parse_num, skip_spaces, skip_plus, parse_ull, parse_signed, parse_ll, digits,
  stringify_ull, sign_text, stringify_ll,
}
use umka_os.Fmt.Digits.{
  IsBase, IsBase-Divides, is_digit-digit_char, scan-digits, digits-fit, digits-zero, digits-none,
  digits-more, pow8,
}

-- The text does not go on with a digit, nor with a character that the table of digits does not have.
abbrev pub Stops : ℕ → Text → Type 0
Stops base [] = Unit
Stops base (c ∷ text) = (is_digit base c ≡ false) × (c < 128)

abbrev pub Starts : ℕ → Text → Type 0
Starts base [] = ⊥
Starts base (c ∷ text) = is_digit base c ≡ true

scan-Stops : (base n : ℕ) (text : Text) → Stops base text → scan base n text ≡ ok (n, text)
unfolding scan
scan-Stops base n [] h = refl
scan-Stops base n (c ∷ text) (h, low) = rw (scan, lt→ltb c 128 low, h) refl

Stops-take : (base k : ℕ) (text : Text) → Stops base text → Stops base (take k text)
Stops-take base zero text h = tt
Stops-take base (suc k) [] h = tt
Stops-take base (suc k) (c ∷ text) h = h

digits-Starts :
    (room : ℕ) (upper : Bool) (base n : ℕ) (text out : Text)
    → IsBase base
    → (n ≢ 0) ⊎ Starts base text
    → digits room upper base n text ≡ ok out
    → Starts base out
digits-Starts zero upper base n text out b (inl ne) e =
    absurd (ne (digits-none upper base n text out e).0)
digits-Starts zero upper base n text out b (inr s) e =
    rw ((digits-none upper base n text out e).1) s
digits-Starts (suc room) upper base n text out b h e = elim (zero-cases n) [
  | inr ne ↦
      let v = IsBase-Divides base n b in
      digits-Starts room upper base (n / base) (digit_char upper (n % base) ∷ text) out b
        (inr (is_digit-digit_char upper base (n % base) v.remainder v.base_le))
        (digits-more room upper base n text out ne e)
  | inl z ↦ elim h [
    | inl ne ↦ absurd (ne z)
    | inr s ↦ rw (digits-zero (suc room) upper base n text out z e) s
  ]
]

-- What a number is printed as: a text that fits the buffer, begins with a digit, and that the
-- reader reads as the number.
pub record Printed (base n : ℕ) (out : Text) : Type 0 where
  pub fits : length out ≤ max_digits
  pub starts : Starts base out
  pub reads : (tail : Text) → scan base 0 (out ++ tail) ≡ scan base n tail

pub stringify_ull-Printed :
    (upper : Bool) (base n : ℕ)
    → IsBase base
    → n < word
    → (out : Text) × (stringify_ull upper base n ≡ ok out) × Printed base n out
unfolding stringify_ull scan is_digit digit_value pow8
stringify_ull-Printed upper base n b small = elim (zero-cases n) [
  | inl z ↦ (
    b'0' ∷ [],
    rw (z) refl,
    record {
      fits = omega arith;
      starts = refl;
      reads = λ tail. rw (z) (ap (λ k. scan base k tail) none_yet);
    },
  )
  | inr ne ↦
      let (out, e, few) = digits-fit max_digits upper base n [] b room in
      (
        out,
        rw (==-false n 0 ne) e,
        record {
          fits = few;
          starts = digits-Starts max_digits upper base n [] out b (inl ne) e;
          reads = λ tail. scan-digits max_digits upper base n [] tail out b small e;
        },
      )
]
  where
    room : n < pow8 max_digits
    room = omega arith

    none_yet : (0 * base + 0) % word ≡ 0
    none_yet = omega arith

window-append :
    (k : ℕ) (out tail : Text)
    → length out ≤ k
    → take k (out ++ tail) ≡ out ++ take (k - length out) tail
window-append k [] tail h = ap (λ j. take j tail) (omega arith)
window-append zero (c ∷ out) tail h = absurd (omega arith)
window-append (suc k) (c ∷ out) tail h =
    let e : k - length out ≡ suc k - suc (length out) = omega arith in
    ap (λ l. c ∷ l) (window-append k out tail (omega arith) ∙ ap (λ j. out ++ take j tail) e)

detect_base-base : (base : ℕ) (text : Text) → IsBase base → detect_base base text ≡ (base, text)
unfolding detect_base
detect_base-base base text (inl e) = rw (e) refl
detect_base-base base text (inr (inl e)) = rw (e) refl
detect_base-base base text (inr (inr e)) = rw (e) refl

parse_num-Printed :
    (base n : ℕ) (out tail : Text)
    → IsBase base
    → Printed base n out
    → Stops base tail
    → parse_num (out ++ tail) base ≡ ok (n, tail)
unfolding parse_num finish_num
parse_num-Printed base n out tail b p stop =
    let rest = take (window - length out) tail in
    let buf : take window (out ++ tail) ≡ out ++ rest =
      window-append window out tail (omega (arith, p.fits)) in
    let scanned : scan base 0 (out ++ rest) ≡ ok (n, rest) =
      p.reads rest ∙ scan-Stops base n rest (Stops-take base (window - length out) tail stop) in
    let long : length (out ++ rest) ≡ length out + length rest = length-append out rest in
    let fits : (leb window (length (out ++ rest)) && (length rest == 0)) ≡ false =
      ground (arith, long, p.fits) in
    let count : length (out ++ rest) - length rest ≡ length out = omega (arith, long) in
    rw (buf, detect_base-base base (out ++ rest) b, scanned, fits, count, drop-append out tail) refl

-- A text that begins with a digit has nothing to skip.
Starts-skip :
    (base : ℕ) (out tail : Text)
    → Starts base out
    → (skip_spaces (out ++ tail) ≡ out ++ tail)
      × (skip_plus (out ++ tail) ≡ out ++ tail)
      × (parse_signed (out ++ tail) base ≡ parse_num (out ++ tail) base)
unfolding skip_spaces skip_plus parse_signed is_digit digit_value
Starts-skip base [] tail h = elim h [ ]
Starts-skip base (c ∷ out) tail h = (ground arith, ground arith, ground arith)

-- An unsigned number that is printed in base 8, 10 or 16 is parsed back as itself, and the text
-- behind it, which does not go on with a digit or a character from 128 on, is left: printing
-- overflows no buffer, and parsing reads no more and no less.
pub parse_ull-stringify_ull :
    (upper : Bool) (base n : ℕ) (tail : Text)
    → IsBase base
    → n < word
    → Stops base tail
    → (out : Text) × (stringify_ull upper base n ≡ ok out)
      × (parse_ull (out ++ tail) base ≡ ok (n, tail))
unfolding parse_ull
parse_ull-stringify_ull upper base n tail b small stop =
    let (out, e, p) = stringify_ull-Printed upper base n b small in
    let (spaces, plus, _) = Starts-skip base out tail p.starts in
    (out, e, rw (spaces, plus) (parse_num-Printed base n out tail b p stop))

parse_ll-positive :
    (sign padsign : Bool) (base n : ℕ) (out tail : Text)
    → negative n ≡ false
    → Starts base out
    → parse_ll ((sign_text n sign padsign ++ out) ++ tail) base ≡ parse_num (out ++ tail) base
unfolding parse_ll parse_signed skip_spaces skip_plus sign_text
parse_ll-positive true padsign base n out tail e h = rw (sign_text, e) refl
parse_ll-positive false true base n out tail e h =
    let (spaces, _, signed) = Starts-skip base out tail h in rw (sign_text, e, spaces) signed
parse_ll-positive false false base n out tail e h =
    let (spaces, _, signed) = Starts-skip base out tail h in rw (sign_text, e, spaces) signed

parse_ll-negative :
    (sign padsign : Bool) (base n : ℕ) (out tail : Text)
    → negative n ≡ true
    → parse_ll ((sign_text n sign padsign ++ out) ++ tail) base
      ≡ (parse_num (out ++ tail) base >>= λ (m, rest). ok (negate m, rest))
unfolding parse_ll parse_signed skip_spaces sign_text
parse_ll-negative true padsign base n out tail e = rw (sign_text, e) refl
parse_ll-negative false padsign base n out tail e = rw (sign_text, e) refl

-- A signed number, a word that is negative from 2 ^ 63 on, that is printed in base 8, 10 or 16 with
-- any choice of a plus sign or a space in front is parsed back as itself, and the text behind it,
-- which does not go on with a digit or a character from 128 on, is left.
pub parse_ll-stringify_ll :
    (upper sign padsign : Bool) (base n : ℕ) (tail : Text)
    → IsBase base
    → n < word
    → Stops base tail
    → (out : Text) × (stringify_ll upper base sign padsign n ≡ ok out)
      × (parse_ll (out ++ tail) base ≡ ok (n, tail))
unfolding stringify_ll
parse_ll-stringify_ll upper sign padsign base n tail b small stop = elim (Bool-cases (negative n)) [
  | inr e ↦
      let (out, printed, p) = stringify_ull-Printed upper base n b small in
      (
        sign_text n sign padsign ++ out,
        rw (stringify_ll, e, printed) refl,
        parse_ll-positive sign padsign base n out tail e p.starts
            ∙ parse_num-Printed base n out tail b p stop,
      )
  | inl e ↦
      let (out, printed, p) = stringify_ull-Printed upper base (negate n) b (omega arith) in
      let twice : negate (negate n) ≡ n = ground arith in
      (
        sign_text n sign padsign ++ out,
        rw (stringify_ll, e, printed) refl,
        parse_ll-negative sign padsign base n out tail e
            ∙ rw (parse_num-Printed base (negate n) out tail b p stop)
                (ap (λ k. ok (k, tail)) twice),
      )
]
