-- ===== src/Fmt/Printf/Layout/Shape.antt =====
-- The padding of a number, compared with a plain description of the three layouts.
use umka_os.Base.{
  ℕ, ◌+◌, ◌-◌, ◌^◌, ◌≤◌, ◌<◌, ◌≡◌, ◌⊎◌, inl, inr, refl, sym, ap, Bool, true, false, ◌++◌,
  append-nil, Option, arith, if◌then◌else◌, Bool-cases, length, replicate, Text, ok,
}
use umka_os.Base.Int.{ℤ, pos, negsuc, pos_part, neg_part, ◌-ℤ◌, ltb_ℤ, checked}
use umka_os.Fmt.Printf.{Flags}
use umka_os.Fmt.Printf.Layout.{repeat, prefix, missing, put_left, put_right, put_number}

-- The zeros that the precision asks for.
abbrev pub zeros_for : ℤ → Bool → Text → ℕ
zeros_for precision is_double num = if is_double then 0 else pos_part precision - length num

-- How many characters fill the width.
abbrev pub fill_for : ℤ → Text → ℕ → Text → ℕ
fill_for width before zeros num = pos_part width - (length before + zeros + length num)

-- The number with its prefix and zeros, and behind it, in front of it, or between the prefix and the
-- zeros, what fills the width.
abbrev pub layout : Flags → Text → ℕ → ℕ → Text → Text
layout flags before fill zeros num =
    if flags.left
    then before ++ replicate zeros b'0' ++ num ++ replicate fill b' '
    else if flags.zeros
    then before ++ replicate fill b'0' ++ replicate zeros b'0' ++ num
    else replicate fill b' ' ++ before ++ replicate zeros b'0' ++ num

-- Where the zeros of the precision are not fewer than none.
abbrev pub Fits : Flags → ℤ → Bool → Text → Type 0
Fits flags precision is_double num =
    (flags.left ≡ true)
    ⊎ ((is_double ≡ true) ⊎ ((pos_part precision ≡ 0) ⊎ (length num ≤ pos_part precision)))

checked-ok : (z : ℤ) → pos_part z < 2 ^ 31 → neg_part z ≤ 2 ^ 31 → checked z ≡ ok z
unfolding checked
checked-ok (pos n) h g = ground arith
checked-ok (negsuc n) h g = ground arith

missing_parts :
    (precision : ℤ) (is_double : Bool) (num : Text)
    → pos_part (missing precision is_double num) ≡ zeros_for precision is_double num
unfolding missing ◌-ℤ◌
missing_parts precision is_double num = ground arith

missing-zeros :
    (flags : Flags) (precision : ℤ) (is_double : Bool) (num : Text)
    → Fits flags precision is_double num
    → flags.left ≡ false
    → missing precision is_double num ≡ pos (zeros_for precision is_double num)
unfolding missing ◌-ℤ◌
missing-zeros flags precision is_double num fits right = ground arith

-- The padding that is left after the prefix and the zeros.
left_over :
    (width : ℤ) (n b z : ℕ)
    → pos_part (width -ℤ pos n -ℤ pos b -ℤ pos z) ≡ pos_part width - (b + z + n)
unfolding ◌-ℤ◌
left_over width n b z = ground arith

minus_high : (width : ℤ) (n : ℕ) → pos_part width < 2 ^ 31 → pos_part (width -ℤ pos n) < 2 ^ 31
unfolding ◌-ℤ◌
minus_high width n h = ground arith

minus_low : (width : ℤ) (n : ℕ) → neg_part width + n ≤ 2 ^ 31 → neg_part (width -ℤ pos n) ≤ 2 ^ 31
unfolding ◌-ℤ◌
minus_low width n h = ground arith

no_fill : (width : ℤ) (n b z : ℕ) → ltb_ℤ (pos n) width ≡ false → pos_part width - (b + z + n) ≡ 0
no_fill width n b z h = ground arith

put_left-layout :
    (width : ℤ) (before num : Text) (zeros : ℤ) (z : ℕ)
    → pos_part zeros ≡ z
    → put_left (width -ℤ pos (length num)) before zeros num
      ≡ before ++ replicate z b'0' ++ num ++ replicate (fill_for width before z num) b' '
unfolding put_left repeat
put_left-layout width before num zeros z e =
    rw (e, left_over width (length num) (length before) z) refl

put_right-layout :
    (padzero : Bool) (width : ℤ) (before num : Text) (z : ℕ)
    → put_right padzero (width -ℤ pos (length num)) before (pos z) num ≡ (
        if padzero
        then before ++ replicate (fill_for width before z num) b'0' ++ replicate z b'0' ++ num
        else replicate (fill_for width before z num) b' ' ++ before ++ replicate z b'0' ++ num)
unfolding put_right repeat
put_right-layout true width before num z =
    rw
      (
        left_over width (length num) (length before) z,
        append-nil (before ++ replicate (fill_for width before z num) b'0'),
      )
      refl
put_right-layout false width before num z = rw (left_over width (length num) (length before) z) refl

layout-full :
    (flags : Flags) (before num : Text) (fill z : ℕ)
    → fill ≡ 0
    → before ++ replicate z b'0' ++ num ≡ layout flags before fill z num
layout-full flags before num fill z e = elim (Bool-cases flags.left) [
  | inl left ↦ rw (left, e) (sym (append-nil (before ++ replicate z b'0' ++ num)))
  | inr right ↦ elim (Bool-cases flags.zeros) [
    | inl zeros ↦ rw (right, zeros, e, append-nil before) refl
    | inr spaces ↦ rw (right, spaces, e) refl
  ]
]

-- The branches of a number that is shorter than the width.
put-layout :
    (flags : Flags) (width precision : ℤ) (is_double : Bool) (num before : Text)
    → Fits flags precision is_double num
    → (if flags.left
        then put_left (width -ℤ pos (length num)) before (missing precision is_double num) num
        else put_right flags.zeros
            (width -ℤ pos (length num))
            before
            (missing precision is_double num)
            num)
      ≡ layout flags before
          (fill_for width before (zeros_for precision is_double num) num)
          (zeros_for precision is_double num)
          num
put-layout flags width precision is_double num before fits = elim (Bool-cases flags.left) [
  | inl left ↦ rw left (
      put_left-layout width before num (missing precision is_double num)
        (zeros_for precision is_double num) (missing_parts precision is_double num))
  | inr right ↦
      rw (missing-zeros flags precision is_double num fits right, right)
        (put_right-layout flags.zeros width before num (zeros_for precision is_double num))
]

-- For a width and a text of the number that stay within `int`, a prefix that is defined, and either
-- left justification or a precision of 0 or of no less than the length of the number, what is
-- printed for a number is the prefix, the zeros of the precision and the number, filled to the width
-- behind with spaces, or behind the prefix with zeros, or in front with spaces, as the flags say.
pub put_number-layout :
    (flags : Flags) (decorated : Bool) (base : Option ℕ) (width precision : ℤ) (is_double : Bool)
    (num before : Text)
    → prefix decorated base ≡ ok before
    → pos_part width < 2 ^ 31
    → neg_part width + length num ≤ 2 ^ 31
    → Fits flags precision is_double num
    → put_number flags decorated base width precision is_double num
      ≡ ok (
          layout flags before
            (fill_for width before (zeros_for precision is_double num) num)
            (zeros_for precision is_double num)
            num)
unfolding put_number repeat
put_number-layout flags decorated base width precision is_double num before e wide room fits =
    let within : checked (width -ℤ pos (length num)) ≡ ok (width -ℤ pos (length num)) =
      checked-ok (width -ℤ pos (length num)) (minus_high width (length num) wide)
        (minus_low width (length num) room) in
    elim (Bool-cases (ltb_ℤ (pos (length num)) width)) [
      | inl short ↦
          rw (within, e, short) (ap ok (put-layout flags width precision is_double num before fits))
      | inr long ↦
          rw (within, e, long, missing_parts precision is_double num)
            (ap ok (
              layout-full flags before num
                (fill_for width before (zeros_for precision is_double num) num)
                (zeros_for precision is_double num) (no_fill width (length num) _ _ long)))
    ]
