-- ===== src/Fmt/Digits.antt =====
-- The digits that `fmtStringifyULL` writes are those that `fmtParseNum` reads.
use umka_os.Base.{
  lt→ltb, ℕ, zero, suc, ◌+◌, ◌*◌, ◌/◌, ◌%◌, ◌≤◌, ◌<◌, ◌≡◌, ◌≢◌, refl, ◌∙◌, ◌⊎◌, inl, inr, Bool,
  true, ◌∷◌, ◌++◌, arith, ==-false, zero-cases, length, Text, ok,
}
use umka_os.Fmt.{word, digit_value, digit_char, is_digit, scan, digits}

-- The bases of the format directives.
abbrev pub IsBase : ℕ → Type 0
IsBase base = (base ≡ 8) ⊎ ((base ≡ 10) ⊎ (base ≡ 16))

-- Division by such a base.
pub record Divides (base n : ℕ) : Type 0 where
  pub recombine : n / base * base + n % base ≡ n
  pub remainder : n % base < base
  pub shrink : n / base * 8 ≤ n
  pub base_le : base ≤ 16

pub IsBase-Divides : (base n : ℕ) → IsBase base → Divides base n
IsBase-Divides base n (inl e) = rw e (record {
  recombine = omega arith;
  remainder = omega arith;
  shrink = omega arith;
  base_le = omega arith;
})
IsBase-Divides base n (inr (inl e)) = rw e (record {
  recombine = omega arith;
  remainder = omega arith;
  shrink = omega arith;
  base_le = omega arith;
})
IsBase-Divides base n (inr (inr e)) = rw e (record {
  recombine = omega arith;
  remainder = omega arith;
  shrink = omega arith;
  base_le = omega arith;
})

digit_value-digit_char : (upper : Bool) (d : ℕ) → d < 16 → digit_value (digit_char upper d) ≡ d
unfolding digit_value digit_char
digit_value-digit_char upper d h = ground arith

pub is_digit-digit_char :
    (upper : Bool) (base d : ℕ) → d < base → base ≤ 16 → is_digit base (digit_char upper d) ≡ true
unfolding is_digit digit_char
is_digit-digit_char upper base d h small = ground (arith, digit_value-digit_char upper d)

digit_char-lt : (upper : Bool) (d : ℕ) → d < 16 → digit_char upper d < 128
unfolding digit_char
digit_char-lt upper d h = ground arith

scan-digit :
    (upper : Bool) (base n : ℕ) (text : Text)
    → Divides base n
    → n < word
    → scan base (n / base) (digit_char upper (n % base) ∷ text) ≡ scan base n text
unfolding scan
scan-digit upper base n text v small =
    let value = digit_value-digit_char upper (n % base) (omega (arith, v.remainder, v.base_le)) in
    let whole : (n / base * base + digit_value (digit_char upper (n % base))) % word ≡ n =
      omega (arith, value, v.recombine) in
    let low =
      lt→ltb (digit_char upper (n % base)) 128
        (digit_char-lt upper (n % base) (omega (arith, v.remainder, v.base_le))) in
    rw (scan, low, is_digit-digit_char upper base (n % base) v.remainder v.base_le, whole) refl

pub digits-more :
    (room : ℕ) (upper : Bool) (base n : ℕ) (text out : Text)
    → n ≢ 0
    → digits (suc room) upper base n text ≡ ok out
    → digits room upper base (n / base) (digit_char upper (n % base) ∷ text) ≡ ok out
unfolding digits
digits-more room upper base n text out ne e = rw (==-false n 0 ne) at e

pub digits-zero :
    (room : ℕ) (upper : Bool) (base n : ℕ) (text out : Text)
    → n ≡ 0
    → digits room upper base n text ≡ ok out
    → out ≡ text
unfolding digits
digits-zero zero upper base n text out z e = ground arith
digits-zero (suc room) upper base n text out z e = ground arith

pub digits-none :
    (upper : Bool) (base n : ℕ) (text out : Text)
    → digits zero upper base n text ≡ ok out
    → (n ≡ 0) × (out ≡ text)
unfolding digits
digits-none upper base n text out e = ground arith

-- Reading the digits of `n` leaves the reader with `n`.
pub scan-digits :
    (room : ℕ) (upper : Bool) (base n : ℕ) (text tail out : Text)
    → IsBase base
    → n < word
    → digits room upper base n text ≡ ok out
    → scan base 0 (out ++ tail) ≡ scan base n (text ++ tail)
scan-digits zero upper base n text tail out b small e =
    let (z, same) = digits-none upper base n text out e in rw (z, same) refl
scan-digits (suc room) upper base n text tail out b small e = elim (zero-cases n) [
  | inl z ↦ rw (z, digits-zero (suc room) upper base n text out z e) refl
  | inr ne ↦
      let v = IsBase-Divides base n b in
      scan-digits room upper base (n / base) (digit_char upper (n % base) ∷ text) tail out b
        (omega (arith, v.shrink)) (digits-more room upper base n text out ne e)
      ∙ scan-digit upper base n (text ++ tail) v small
]

-- Eight times as much for one byte more.
unfoldable pub pow8 : ℕ → ℕ
pow8 zero = 1
pow8 (suc k) = 8 * pow8 k

-- With enough room the digits fit, and no more bytes are used.
pub digits-fit :
    (room : ℕ) (upper : Bool) (base n : ℕ) (text : Text)
    → IsBase base
    → n < pow8 room
    → (out : Text) × (digits room upper base n text ≡ ok out) × (length out ≤ length text + room)
unfolding digits pow8
digits-fit zero upper base n text b small =
    let z : n ≡ 0 = omega arith in (text, rw z refl, omega arith)
digits-fit (suc room) upper base n text b small = elim (zero-cases n) [
  | inl z ↦ (text, rw z refl, omega arith)
  | inr ne ↦
      let v = IsBase-Divides base n b in
      let (out, e, few) =
        digits-fit room upper base (n / base) (digit_char upper (n % base) ∷ text) b
          (omega (arith, v.shrink)) in
      (out, rw (==-false n 0 ne) e, omega arith)
]
