-- ===== src/Fmt.antt =====
-- Integers of src/mock_libc/fmt.c as text: printing and parsing, and the two kinds of string
-- stream. A string stream to read is the text from its offset on.
pub mod Digits
pub mod RoundTrip
pub mod Truncate
pub mod Source
pub mod Printf
pub mod Scanf
pub mod Convert
pub mod Tests
use umka_os.Base.{
  ℕ, zero, suc, ◌+◌, ◌-◌, ◌*◌, ◌/◌, ◌%◌, ◌^◌, Bool, true, false, ◌&&◌, ◌||◌, List, [], ◌∷◌, ◌++◌,
  ◌==◌, ltb, leb, if◌then◌else◌, length, take, drop, Text, Res, ok, fault, ◌>>=◌,
}

-- `unsigned long long`; a `long long` is its word, negative from 2 ^ 63 on.
abbrev pub word : ℕ
word = 2 ^ 64

abbrev pub negative : ℕ → Bool
negative n = leb (2 ^ 63) n

abbrev pub negate : ℕ → ℕ
negate n = (word - n) % word

-- `basetbl`, for character codes below 128; a `char` is signed, so for others the index is negative.
unfoldable pub digit_value : ℕ → ℕ
digit_value c =
    if leb b'0' c && leb c b'9'
    then c - b'0'
    else if leb b'A' c && leb c b'F'
    then c - b'A' + 10
    else if leb b'a' c && leb c b'f'
    then c - b'a' + 10
    else 0

-- `"0123456789ABCDEF"[d]`, or the table of small letters.
unfoldable pub digit_char : Bool → ℕ → ℕ
digit_char upper d = if ltb d 10 then d + b'0' else (if upper then d - 10 + b'A' else d - 10 + b'a')

unfoldable pub is_digit : ℕ → ℕ → Bool
is_digit base c = (c == b'0') || (ltb 0 (digit_value c) && ltb (digit_value c) base)

-- The loop of `fmtParseNum`: the number, and what it has not read. A character from 128 on is looked
-- up in front of `basetbl`.
unfoldable pub scan : ℕ → ℕ → Text → Res (ℕ × Text)
scan base n [] = ok (n, [])
scan base n (c ∷ text) = elim (ltb c 128) [
  | false ↦ fault
  | true ↦ elim (is_digit base c) [
    | true ↦ scan base ((n * base + digit_value c) % word) text
    | false ↦ ok (n, c ∷ text)
  ]
]

-- The base, and the text behind its prefix.
unfoldable pub detect_base : ℕ → Text → ℕ × Text
detect_base (suc base) text = (suc base, text)
detect_base zero [] = (10, [])
detect_base zero (c ∷ []) = if c == b'0' then (8, []) else (10, c ∷ [])
detect_base zero (c ∷ d ∷ text) =
    if c == b'0'
    then (if (d == b'x') || (d == b'X') then (16, text) else (8, d ∷ text))
    else (10, c ∷ d ∷ text)

-- `char buf[64]` of `fmtParseNum`
abbrev pub window : ℕ
window = 64

-- Reading on where all 64 characters are digits runs over `buf`, which then has no terminator.
unfoldable pub finish_num : Text → ℕ × Text → Res (ℕ × Text)
finish_num text (n, unread) =
    let buf = take window text in
    if leb window (length buf) && (length unread == 0)
    then fault
    else ok (n, drop (length buf - length unread) text)

-- `fmtParseNum`
unfoldable pub parse_num : Text → ℕ → Res (ℕ × Text)
parse_num text base =
    let (base', digits) = detect_base base (take window text) in
    scan base' 0 digits >>= λ read. finish_num text read

-- `_skipSpaces`
unfoldable pub skip_spaces : Text → Text
skip_spaces [] = []
skip_spaces (c ∷ text) = let rest = skip_spaces text in if c == b' ' then rest else c ∷ text

unfoldable pub skip_plus : Text → Text
skip_plus [] = []
skip_plus (c ∷ text) = if c == b'+' then text else c ∷ text

-- `fmtParseULL`
unfoldable pub parse_ull : Text → ℕ → Res (ℕ × Text)
parse_ull text base = parse_num (skip_plus (skip_spaces text)) base

unfoldable pub parse_signed : Text → ℕ → Res (ℕ × Text)
parse_signed [] base = parse_num [] base
parse_signed (c ∷ text) base =
    if c == b'-'
    then (parse_num text base >>= λ (n, rest). ok (negate n, rest))
    else parse_num (skip_plus (c ∷ text)) base

-- `fmtParseLL`
unfoldable pub parse_ll : Text → ℕ → Res (ℕ × Text)
parse_ll text base = parse_signed (skip_spaces text) base

-- `while (n)` of `fmtStringifyULL`, with the free bytes of `buf` below `ptr`.
unfoldable pub digits : ℕ → Bool → ℕ → ℕ → Text → Res Text
digits zero upper base n text = if n == 0 then ok text else fault
digits (suc room) upper base n text =
    let rest = digits room upper base (n / base) (digit_char upper (n % base) ∷ text) in
    if n == 0 then ok text else rest

-- The bytes of `buf` in front of the terminator.
abbrev pub max_digits : ℕ
max_digits = 62

-- `fmtStringifyULL`: what it writes.
unfoldable pub stringify_ull : Bool → ℕ → ℕ → Res Text
stringify_ull upper base n = if n == 0 then ok (b'0' ∷ []) else digits max_digits upper base n []

-- What `fmtStringifyLL` writes before the digits.
unfoldable pub sign_text : ℕ → Bool → Bool → Text
sign_text n sign padsign =
    if sign || negative n
    then (if negative n then b'-' ∷ [] else b'+' ∷ [])
    else (if padsign then b' ' ∷ [] else [])

-- `fmtStringifyLL`: what it writes.
unfoldable pub stringify_ll : Bool → ℕ → Bool → Bool → ℕ → Res Text
stringify_ll upper base sign padsign n =
    stringify_ull upper base (if negative n then negate n else n) >>= λ text.
    ok (sign_text n sign padsign ++ text)

-- `size_t` has 32 bits.
abbrev pub size_word : ℕ
size_word = 2 ^ 32

-- A string stream to write: `data[0 .. offs)`, its size, `supposedoffs`, and whether `data[offs]` is
-- known to be the terminator.
pub record Writer : Type 0 where
  pub data_ : Text
  pub size : ℕ
  pub supposedoffs : ℕ
  pub ended : Bool

-- The loop of `_strWrite`.
unfoldable pub put_chars : ℕ → Text → Text → Text
put_chars size out [] = out
put_chars size out (c ∷ text) =
    let rest = put_chars size (out ++ c ∷ []) text in
    if ltb (length out) (size - 1) then rest else out

-- `_strWrite`
unfoldable pub str_write : Writer → Text → Writer
str_write s text =
    if s.size == 0
    then record s { supposedoffs = (s.supposedoffs + length text) % size_word }
    else record s {
      data_ = put_chars s.size s.data_ text;
      supposedoffs = (s.supposedoffs + length text) % size_word;
      ended = true;
    }
