-- ===== src/Fmt/Printf.antt =====
-- `fmtvprintf` of src/mock_libc/fmt.c: the flags, width, precision and length of a directive, and
-- the arguments. An `int` or a `long` has 32 bits. What C does not define is a fault: an argument of
-- another type than the directive asks for, and `int` arithmetic that overflows.
pub mod Argument
pub mod Layout
pub mod Run
pub mod Tests
use umka_os.Base.{
  ℕ, ◌+◌, ◌-◌, ◌*◌, ◌^◌, Bool, true, false, ◌&&◌, List, [], ◌∷◌, Option, none, some, ◌==◌, ltb, leb,
  if◌then◌else◌, Text, Res, ok, fault, ◌>>=◌,
}
use umka_os.Base.Int.{ℤ, pos, negsuc}

-- `leftjustify`, `forcesign`, `padsign`, `decorated` and `padzero`.
pub record Flags : Type 0 where
  pub left : Bool
  pub force : Bool
  pub pad : Bool
  pub decorated : Bool
  pub zeros : Bool

abbrev pub no_flags : Flags
no_flags = record { left = false; force = false; pad = false; decorated = false; zeros = false }

-- The `switch` of the loop over the flags; none where the loop stops.
unfoldable pub set_flag : ℕ → Flags → Option Flags
set_flag c f =
    if c == b'-'
    then some (record f { left = true })
    else if c == b'+'
    then some (record f { force = true })
    else if c == b' '
    then some (record f { pad = true })
    else if c == b'#'
    then some (record f { decorated = true })
    else if c == b'0'
    then some (record f { zeros = true })
    else none

unfoldable pub parse_flags : Text → Flags → Flags × Text
parse_flags [] f = (f, [])
parse_flags (c ∷ text) f = elim (set_flag c f) [
  | some g ↦ parse_flags text g
  | none ↦ (f, c ∷ text)
]

-- The arguments behind the format, with the type that each was passed with.
pub data Arg (D : Type 0) : Type 0 where
  word32 : ℕ → Arg D
  word64 : ℕ → Arg D
  real : D → Arg D
  string : Text → Arg D
  address : ℕ → Arg D

-- `va_arg(ap, int)`, as the bits.
unfoldable pub next_word32 : {D : Type 0} → List (Arg D) → Res (ℕ × List (Arg D))
next_word32 (word32 n ∷ args) = ok (n, args)
next_word32 _ = fault

-- The value of 32 bits as an `int`.
unfoldable pub to_int : ℕ → ℤ
to_int n = if ltb n (2 ^ 31) then pos n else negsuc (2 ^ 32 - 1 - n)

unfoldable pub decimal : ℕ → Bool
decimal c = leb b'0' c && leb c b'9'

-- `width = width * 10 + (*fmt - '0')` as long as digits follow.
unfoldable pub scan_int : ℕ → Text → Res (ℕ × Text)
scan_int n [] = ok (n, [])
scan_int n (c ∷ text) = elim (decimal c) [
  | false ↦ ok (n, c ∷ text)
  | true ↦
      let m = n * 10 + (c - b'0') in
      let rest = scan_int m text in if ltb m (2 ^ 31) then rest else fault
]

unfoldable pub parse_width : {D : Type 0} → Text → List (Arg D) → Res (ℤ × Text × List (Arg D))
parse_width [] args = ok (pos 0, [], args)
parse_width (c ∷ text) args =
    if c == b'*'
    then (next_word32 args >>= λ (n, args'). ok (to_int n, text, args'))
    else (scan_int 0 (c ∷ text) >>= λ (n, rest). ok (pos n, rest, args))

-- What follows the point.
unfoldable pub parse_point : {D : Type 0} → Text → List (Arg D) → Res (ℤ × Text × List (Arg D))
parse_point [] args = ok (negsuc 0, [], args)
parse_point (c ∷ text) args =
    if decimal c
    then (scan_int 0 (c ∷ text) >>= λ (n, rest). ok (pos n, rest, args))
    else if c == b'*'
    then (next_word32 args >>= λ (n, args'). ok (to_int n, text, args'))
    else ok (negsuc 0, c ∷ text, args)

unfoldable pub parse_precision : {D : Type 0} → Text → List (Arg D) → Res (ℤ × Text × List (Arg D))
parse_precision [] args = ok (negsuc 0, [], args)
parse_precision (c ∷ text) args =
    if c == b'.' then parse_point text args else ok (negsuc 0, c ∷ text, args)

-- `XNONE` to `XT`
pub data Length : Type 0 where
  len_none len_hh len_h len_l len_ll len_j len_z len_t : Length

-- A letter that may stand twice.
unfoldable pub parse_double : ℕ → Length → Length → Text → Length × Text
parse_double c once twice [] = (once, [])
parse_double c once twice (d ∷ text) = if d == c then (twice, text) else (once, d ∷ text)

unfoldable pub parse_length : Text → Length × Text
parse_length [] = (len_none, [])
parse_length (c ∷ text) =
    if c == b'h'
    then parse_double b'h' len_h len_hh text
    else if c == b'l'
    then parse_double b'l' len_l len_ll text
    else if c == b'j'
    then (len_j, text)
    else if c == b'z'
    then (len_z, text)
    else if c == b't'
    then (len_t, text)
    else (len_none, c ∷ text)

-- What stands between the `%` and the letter of the directive.
pub record Spec : Type 0 where
  pub flags : Flags
  pub width : ℤ
  pub precision : ℤ
  pub length_ : Length

unfoldable pub parse_spec : {D : Type 0} → Text → List (Arg D) → Res (Spec × Text × List (Arg D))
parse_spec fmt args =
    let (flags, fmt1) = parse_flags fmt no_flags in
    parse_width fmt1 args >>= λ (width, fmt2, args2).
    parse_precision fmt2 args2 >>= λ (precision, fmt3, args3).
    let (len, fmt4) = parse_length fmt3 in
    ok (record { flags = flags; width = width; precision = precision; length_ = len }, fmt4, args3)
