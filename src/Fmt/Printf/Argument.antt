-- ===== src/Fmt/Printf/Argument.antt =====
-- The numbers that the directives of `fmtvprintf` take from the arguments, as text, with
-- `fmtStringifyD`. The arithmetic on `double` is a parameter.
use umka_os.Base.{
  ℕ, zero, suc, ◌+◌, ◌-◌, ◌%◌, ◌^◌, Bool, true, false, ◌||◌, List, [], ◌∷◌, ◌++◌, Option, none,
  some, ◌==◌, ltb, if◌then◌else◌, take, Text, Res, ok, fault, ◌>>=◌,
}
use umka_os.Base.Int.{ℤ, pos, negsuc, pos_part, ltb_ℤ}
use umka_os.Fmt.{word, stringify_ull, stringify_ll}
use umka_os.Fmt.Printf.{
  Arg, word64, real, address, next_word32, Length, len_none, len_hh, len_h, len_l, len_ll, len_j,
  len_z, len_t, Spec,
}

-- `va_arg(ap, long long)`, as the bits.
unfoldable pub next_word64 : {D : Type 0} → List (Arg D) → Res (ℕ × List (Arg D))
next_word64 (word64 n ∷ args) = ok (n, args)
next_word64 _ = fault

unfoldable pub next_real : {D : Type 0} → List (Arg D) → Res (D × List (Arg D))
next_real (real d ∷ args) = ok (d, args)
next_real _ = fault

unfoldable pub next_address : {D : Type 0} → List (Arg D) → Res (ℕ × List (Arg D))
next_address (address n ∷ args) = ok (n, args)
next_address _ = fault

-- The low bits as a signed number, in 64 bits.
unfoldable pub sign_extend : ℕ → ℕ → ℕ
sign_extend bits n =
    let low = n % 2 ^ bits in if ltb low (2 ^ (bits - 1)) then low else low + word - 2 ^ bits

-- The `switch` of `d` and `i`.
unfoldable pub fetch_signed : {D : Type 0} → Length → List (Arg D) → Res (ℕ × List (Arg D))
fetch_signed len_hh args = next_word32 args >>= λ (n, args'). ok (sign_extend 8 n, args')
fetch_signed len_h args = next_word32 args >>= λ (n, args'). ok (sign_extend 16 n, args')
fetch_signed len_ll args = next_word64 args
fetch_signed len_j args = next_word64 args
fetch_signed len_z args = next_word32 args
fetch_signed len_l args = next_word32 args >>= λ (n, args'). ok (sign_extend 32 n, args')
fetch_signed len_t args = next_word32 args >>= λ (n, args'). ok (sign_extend 32 n, args')
fetch_signed len_none args = next_word32 args >>= λ (n, args'). ok (sign_extend 32 n, args')

-- The `switch` of `x`, `X`, `o` and `u`.
unfoldable pub fetch_unsigned : {D : Type 0} → Length → List (Arg D) → Res (ℕ × List (Arg D))
fetch_unsigned len_l args = next_word32 args
fetch_unsigned len_ll args = next_word64 args
fetch_unsigned len_j args = next_word64 args
fetch_unsigned len_z args = next_word32 args
fetch_unsigned len_hh args = next_word32 args >>= λ (n, args'). ok (sign_extend 32 n, args')
fetch_unsigned len_h args = next_word32 args >>= λ (n, args'). ok (sign_extend 32 n, args')
fetch_unsigned len_t args = next_word32 args >>= λ (n, args'). ok (sign_extend 32 n, args')
fetch_unsigned len_none args = next_word32 args >>= λ (n, args'). ok (sign_extend 32 n, args')

-- The operations on `double` that the code uses. A conversion to an integer type that cannot hold
-- the value is a fault.
pub record Doubles (D : Type 0) : Type 0 where
  pub is_negative : D → Bool
  pub negated : D → D
  pub whole : D → Res ℕ
  pub minus_whole : D → ℕ → D
  pub times_ten : D → D
  pub as_int : D → Res ℤ

-- `"0123456789"[n % 10]`; the remainder of a negative number is negative or 0.
unfoldable pub last_digit : ℤ → Res ℕ
last_digit (pos n) = ok (n % 10 + b'0')
last_digit (negsuc n) = if suc n % 10 == 0 then ok b'0' else fault

unfoldable pub frac_digits : {D : Type 0} → Doubles D → ℕ → D → Res Text
frac_digits d zero frac = ok []
frac_digits d (suc n) frac =
    let next = d.times_ten frac in
    d.as_int next >>= λ i. last_digit i >>= λ c. frac_digits d n next >>= λ text. ok (c ∷ text)

-- What `fmtStringifyD` writes in front of the digits.
unfoldable pub real_sign : Bool → Bool → Bool → Text
real_sign below force pad =
    if force || below
    then (if below then b'-' ∷ [] else b'+' ∷ [])
    else (if pad then b' ' ∷ [] else [])

-- `fmtStringifyD`: what it writes.
unfoldable pub stringify_d : {D : Type 0} → Doubles D → D → Bool → Bool → ℤ → Bool → Res Text
stringify_d d n upper force precision pad =
    let below = d.is_negative n in
    let size = if below then d.negated n else n in
    d.whole size >>= λ whole. stringify_ull upper 10 whole >>= λ text.
    (if ltb_ℤ precision (pos 0)
      then ok (b'.' ∷ [])
      else if pos_part precision == 0
      then ok []
      else (frac_digits d (pos_part precision) (d.minus_whole size whole) >>= λ frac.
          ok (b'.' ∷ frac)))
    >>= λ frac. ok (real_sign below force pad ++ text ++ frac)

-- A number to print: `numbuf`, the base where it is set, whether it is a `double`, `decorated`, and
-- the arguments behind it.
pub record Number (D : Type 0) : Type 0 where
  pub text : Text
  pub base : Option ℕ
  pub is_double : Bool
  pub decorated : Bool
  pub args : List (Arg D)

-- `numbuf` has room for 127 characters and the terminator.
abbrev pub numbuf : Text → Text
numbuf text = take 127 text

-- The base of an unsigned directive.
unfoldable pub base_of : ℕ → Option ℕ
base_of c =
    if (c == b'x') || (c == b'X')
    then some 16
    else if c == b'o'
    then some 8
    else if c == b'u'
    then some 10
    else none

unfoldable pub is_real : ℕ → Bool
is_real c = (c == b'E') || (c == b'e') || ((c == b'G') || (c == b'g')) || (c == b'f')

-- `d` and `i`
unfoldable pub signed_number : {D : Type 0} → Spec → List (Arg D) → Res (Number D)
signed_number spec args = fetch_signed spec.length_ args >>= λ (n, args').
    stringify_ll false 10 spec.flags.force spec.flags.pad n >>= λ text. ok (record {
      text = numbuf text;
      base = some 10;
      is_double = false;
      decorated = spec.flags.decorated;
      args = args';
    })

-- `x`, `X`, `o` and `u`
unfoldable pub unsigned_number : {D : Type 0} → ℕ → ℕ → Spec → List (Arg D) → Res (Number D)
unsigned_number c base spec args = fetch_unsigned spec.length_ args >>= λ (n, args').
    stringify_ull (c == b'X') base n >>= λ text. ok (record {
      text = numbuf text;
      base = some base;
      is_double = false;
      decorated = spec.flags.decorated;
      args = args';
    })

-- `e`, `E`, `f`, `g` and `G`
unfoldable pub real_number : {D : Type 0} → Doubles D → Spec → List (Arg D) → Res (Number D)
real_number d spec args = next_real args >>= λ (n, args').
    stringify_d d n false spec.flags.force
      (if ltb_ℤ spec.precision (pos 0) then pos 1 else spec.precision) spec.flags.pad
    >>= λ text. ok (record {
      text = numbuf text;
      base = none;
      is_double = true;
      decorated = spec.flags.decorated;
      args = args';
    })

-- `p` and `P`
unfoldable pub address_number : {D : Type 0} → ℕ → List (Arg D) → Res (Number D)
address_number c args = next_address args >>= λ (n, args').
    stringify_ull (c == b'P') 16 n >>= λ text. ok (record {
      text = numbuf text;
      base = some 16;
      is_double = false;
      decorated = true;
      args = args';
    })

-- The number of a directive; an unknown letter has none.
unfoldable pub number : {D : Type 0} → Doubles D → ℕ → Spec → List (Arg D) → Res (Number D)
number d c spec args =
    if (c == b'd') || (c == b'i')
    then signed_number spec args
    else if is_real c
    then real_number d spec args
    else if (c == b'p') || (c == b'P')
    then address_number c args
    else elim (base_of c) [
      | some base ↦ unsigned_number c base spec args
      | none ↦ ok (record {
        text = [];
        base = none;
        is_double = false;
        decorated = spec.flags.decorated;
        args = args;
      })
    ]
