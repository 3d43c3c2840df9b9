-- ===== src/Fmt/Scanf.antt =====
-- `fmtvscanf` and `fmtParseD` of src/mock_libc/fmt.c on a string stream, which is the text that is
-- left to read. The arithmetic on `double` is a parameter.
pub mod Back
pub mod Tests
use umka_os.Base.{
  ℕ, zero, suc, ◌+◌, ◌-◌, ◌*◌, ◌%◌, ◌^◌, Bool, true, false, ◌&&◌, ◌||◌, not, List, [], ◌∷◌, ◌++◌,
  Option, none, some, ◌==◌, leb, if◌then◌else◌, length, Text, Res, ok, fault, ◌>>=◌,
}
use umka_os.Base.Int.{ℤ, pos, negsuc}
use umka_os.Fmt.{word, size_word, skip_spaces, parse_num, parse_ull, parse_ll}
use umka_os.Fmt.Printf.{decimal}

-- The operations on `double`, with `exp` and `log` of math.h.
pub record Reals (D : Type 0) : Type 0 where
  pub of_int : ℤ → D
  pub of_ull : ℕ → D
  pub plus : D → D → D
  pub times : D → D → D
  pub over : D → D → D
  pub exp : D → D
  pub log : D → D

unfoldable pub is_space : ℕ → Bool
is_space c = (c == b' ') || (c == b'\n') || ((c == b'\t') || (c == b'\r'))

-- `_skipWhitespaces`
unfoldable pub skip_whitespaces : Text → Text
skip_whitespaces [] = []
skip_whitespaces (c ∷ text) =
    let rest = skip_whitespaces text in if is_space c then rest else c ∷ text

-- Whether the next character is `c`; then the text behind it.
unfoldable pub accept : ℕ → Text → Option Text
accept c [] = none
accept c (d ∷ text) = if d == c then some text else none

-- An optional sign, and whether it is a minus.
unfoldable pub scan_sign : Text → Bool × Text
scan_sign text = elim (accept b'-' text) [
  | some rest ↦ (true, rest)
  | none ↦ elim (accept b'+' text) [ some rest ↦ (false, rest) | none ↦ (false, text) ]
]

-- The loop over the digits behind the point: `frac`, `div`, and the text behind.
unfoldable pub scan_frac : {D : Type 0} → Reals D → ℕ → D → Text → ℕ × D × Text
scan_frac r frac div [] = (frac, div, [])
scan_frac r frac div (c ∷ text) = elim (decimal c) [
  | true ↦ scan_frac r ((frac * 10 + (c - b'0')) % word) (r.times div (r.of_int (pos 10))) text
  | false ↦ (frac, div, c ∷ text)
]

-- The part from the point on.
unfoldable pub parse_frac : {D : Type 0} → Reals D → D → Text → D × Text
parse_frac r val text = elim (accept b'.' text) [
  | none ↦ (val, text)
  | some digits ↦
      let (frac, div, rest) = scan_frac r 0 (r.of_int (pos 1)) digits in
      (r.plus val (r.over (r.of_ull frac) div), rest)
]

abbrev signed_one : {D : Type 0} → Reals D → Bool → D
signed_one r minus = r.of_int (if minus then negsuc 0 else pos 1)

-- The part from the `e` on; `text` stands behind it.
unfoldable pub parse_exponent : {D : Type 0} → Reals D → D → Text → Res (D × Text)
parse_exponent r val text =
    let (minus, digits) = scan_sign text in
    parse_num digits 10 >>= λ (n, rest).
    let e = r.times (r.of_ull n) (signed_one r minus) in
    ok (r.times val (r.exp (r.times (r.log (r.of_int (pos 10))) e)), rest)

unfoldable pub after_e : Text → Option Text
after_e text = elim (accept b'e' text) [ some rest ↦ some rest | none ↦ accept b'E' text ]

-- `fmtParseD`
unfoldable pub parse_d : {D : Type 0} → Reals D → Text → Res (D × Text)
parse_d r text =
    let (minus, digits) = scan_sign (skip_spaces text) in
    parse_num digits 10 >>= λ (whole, behind).
    if length behind == length digits
    then ok (r.of_int (pos 0), behind)
    else (let (val, rest) = parse_frac r (r.of_ull whole) behind in
        elim (after_e rest) [
          | some e ↦ parse_exponent r val e
          | none ↦ ok (r.times val (signed_one r minus), rest)
        ])

-- What is stored through a pointer: 32 bits, a `double`, a `char`, or a string with its terminator.
pub data Item (D : Type 0) : Type 0 where
  bits : ℕ → Item D
  real : D → Item D
  char : ℕ → Item D
  string : Text → Item D

-- The text that is left, the pointers that are left, `num`, and what has been stored where.
pub record Scan (D : Type 0) : Type 0 where
  pub rest : Text
  pub pointers : List ℕ
  pub num : ℕ
  pub stored : List (ℕ × Item D)

-- `*va_arg(ap, T *) = item`, with the text that is left then.
unfoldable pub store : {D : Type 0} → Item D → Text → Scan D → Res (Scan D)
store item rest s = elim s.pointers [
  | [] ↦ fault
  | p ∷ pointers ↦
      ok (record s { rest = rest; pointers = pointers; stored = s.stored ++ (p, item) ∷ [] })
]

-- The word up to the next whitespace, and the text behind it.
unfoldable pub take_word : Text → Text × Text
take_word [] = ([], [])
take_word (c ∷ text) =
    let (taken, rest) = take_word text in if is_space c then ([], c ∷ text) else (c ∷ taken, rest)

unfoldable pub convert_signed : {D : Type 0} → ℕ → Scan D → Res (Scan D)
convert_signed base s = parse_ll s.rest base >>= λ (n, rest). store (bits (n % 2 ^ 32)) rest s

unfoldable pub convert_unsigned : {D : Type 0} → ℕ → Scan D → Res (Scan D)
convert_unsigned base s = parse_ull s.rest base >>= λ (n, rest). store (bits (n % 2 ^ 32)) rest s

unfoldable pub convert_real : {D : Type 0} → Reals D → Scan D → Res (Scan D)
convert_real r s = parse_d r s.rest >>= λ (d, rest). store (real d) rest s

-- At the end of the text nothing is stored, and the pointer is used up.
unfoldable pub convert_char : {D : Type 0} → Scan D → Res (Scan D)
convert_char s = elim s.rest [
  | c ∷ rest ↦ store (char c) rest s
  | [] ↦ elim s.pointers [ [] ↦ fault | p ∷ pointers ↦ ok (record s { pointers = pointers }) ]
]

unfoldable pub convert_string : {D : Type 0} → Scan D → Res (Scan D)
convert_string s = let (taken, rest) = take_word s.rest in store (string taken) rest s

-- `%%` reads one character, whatever it is, and counts `num` down.
unfoldable pub convert_percent : {D : Type 0} → Scan D → Scan D
convert_percent s = elim s.rest [
  | [] ↦ record s { num = (s.num + size_word - 1) % size_word }
  | c ∷ rest ↦ record s { rest = rest; num = (s.num + size_word - 1) % size_word }
]

-- The `switch` over the letter of a conversion; `total` is the length of the whole text.
unfoldable pub convert : {D : Type 0} → Reals D → ℕ → ℕ → Scan D → Res (Scan D)
convert r total c s =
    if c == b'%'
    then ok (convert_percent s)
    else if c == b'i'
    then convert_signed 0 s
    else if c == b'd'
    then convert_signed 10 s
    else if c == b'u'
    then convert_unsigned 10 s
    else if c == b'o'
    then convert_unsigned 8 s
    else if (c == b'x') || (c == b'p')
    then convert_unsigned 16 s
    else if (c == b'e') || (c == b'g') || (c == b'f')
    then convert_real r s
    else if c == b'c'
    then convert_char s
    else if c == b's'
    then convert_string s
    else if c == b'n'
    then store (bits ((total - length s.rest) % 2 ^ 32)) s.rest s
    else ok s

-- Whether the loop returns after a conversion: it has read nothing, and is not `%n`.
unfoldable pub stops : ℕ → Text → Text → Bool
stops c before after = (length after == length before) && not (c == b'n')

abbrev pub count : {D : Type 0} → Scan D → Scan D
count s = record s { num = (s.num + 1) % size_word }

abbrev skipped : {D : Type 0} → Scan D → Scan D
skipped s = record s { rest = skip_whitespaces s.rest }

-- The loop of `fmtvscanf`.
unfoldable pub scan_format : {D : Type 0} → Reals D → ℕ → Text → Scan D → Res (Scan D)
scan_format r total [] s = ok s
scan_format r total (c ∷ []) s =
    if c == b'%'
    then ok (skipped s)
    else if is_space c
    then ok (skipped s)
    else elim (accept c (skip_whitespaces s.rest)) [
      | none ↦ ok (skipped s)
      | some rest ↦ ok (record s { rest = rest })
    ]
scan_format r total (c ∷ d ∷ fmt) s =
    if c == b'%'
    then (convert r total d (skipped s) >>= λ s'.
        if stops d (skip_whitespaces s.rest) s'.rest
        then ok s'
        else scan_format r total fmt (count s'))
    else if is_space c
    then scan_format r total (d ∷ fmt) (skipped s)
    else elim (accept c (skip_whitespaces s.rest)) [
      | none ↦ ok (skipped s)
      | some rest ↦ scan_format r total (d ∷ fmt) (record s { rest = rest })
    ]

-- `fmtvscanf`; it returns `num`.
unfoldable pub fmtvscanf : {D : Type 0} → Reals D → Text → Text → List ℕ → Res (Scan D)
fmtvscanf r text fmt pointers =
    scan_format r (length text) fmt
      (record { rest = text; pointers = pointers; num = 0; stored = [] })
