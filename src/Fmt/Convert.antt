-- ===== src/Fmt/Convert.antt =====
-- The conversions of src/mock_libc/mock_libc.c that parse a string: `strtoull`, `strtoll`, `strtol`,
-- `strtod` and `sscanf`. The end pointer is the number of characters in front of it.
use umka_os.Base.{
  ℕ, ◌-◌, ◌%◌, ◌^◌, ◌<◌, ◌≡◌, ap, Bool, List, ◌++◌, arith, length, length-append, Text, Res, ok,
  ◌>>=◌,
}
use umka_os.Fmt.{word, parse_ull, parse_ll, stringify_ull, stringify_ll}
use umka_os.Fmt.Digits.{IsBase}
use umka_os.Fmt.RoundTrip.{Stops, parse_ull-stringify_ull, parse_ll-stringify_ll}
use umka_os.Fmt.Scanf.{Reals, Scan, parse_d, fmtvscanf}

-- `stream.offs` when `rest` is left.
abbrev offs : Text → Text → ℕ
offs nptr rest = length nptr - length rest

unfoldable pub strtoull : Text → ℕ → Res (ℕ × ℕ)
strtoull nptr base = parse_ull nptr base >>= λ (num, rest). ok (num, offs nptr rest)

unfoldable pub strtoll : Text → ℕ → Res (ℕ × ℕ)
strtoll nptr base = parse_ll nptr base >>= λ (num, rest). ok (num, offs nptr rest)

-- `strtol`; a `long` has 32 bits.
unfoldable pub strtol : Text → ℕ → Res (ℕ × ℕ)
strtol nptr base = parse_ll nptr base >>= λ (num, rest). ok (num % 2 ^ 32, offs nptr rest)

unfoldable pub strtod : {D : Type 0} → Reals D → Text → Res (D × ℕ)
strtod r nptr = parse_d r nptr >>= λ (num, rest). ok (num, offs nptr rest)

-- `vsscanf` and `sscanf`: the count, with what is stored.
unfoldable pub sscanf : {D : Type 0} → Reals D → Text → Text → List ℕ → Res (Scan D)
sscanf r s fmt pointers = fmtvscanf r s fmt pointers

offs-append : (out tail : Text) → offs (out ++ tail) tail ≡ length out
offs-append out tail = omega (arith, length-append out tail)

-- A 64-bit number, unsigned or signed, that is printed in base 8, 10 or 16, the signed one with any
-- choice of a plus sign or a space in front, is read back by `strtoull` or `strtoll`, whatever
-- follows it that does not go on with a digit or a character from 128 on, and by `strtol` its low
-- 32 bits; each sets the end pointer just behind the number.
pub strtoll-stringify_ll :
    (upper sign padsign : Bool) (base n : ℕ) (tail : Text)
    → IsBase base
    → n < word
    → Stops base tail
    → (unsigned signed : Text) × (stringify_ull upper base n ≡ ok unsigned)
      × (stringify_ll upper base sign padsign n ≡ ok signed)
      × (strtoull (unsigned ++ tail) base ≡ ok (n, length unsigned))
      × (strtoll (signed ++ tail) base ≡ ok (n, length signed))
      × (strtol (signed ++ tail) base ≡ ok (n % 2 ^ 32, length signed))
unfolding strtoull strtoll strtol
strtoll-stringify_ll upper sign padsign base n tail b small stop =
    let (unsigned, e, f) = parse_ull-stringify_ull upper base n tail b small stop in
    let (signed, g, h) = parse_ll-stringify_ll upper sign padsign base n tail b small stop in
    (
      unsigned,
      signed,
      e,
      g,
      rw f (ap (λ k. ok (n, k)) (offs-append unsigned tail)),
      rw h (ap (λ k. ok (n, k)) (offs-append signed tail)),
      rw h (ap (λ k. ok (n % 2 ^ 32, k)) (offs-append signed tail)),
    )
