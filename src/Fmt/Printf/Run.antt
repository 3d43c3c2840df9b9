-- ===== src/Fmt/Printf/Run.antt =====
-- The directives of `fmtvprintf` one by one, and its loop over the format.
pub mod Fuel
pub mod Numbers
pub mod Buffer
use umka_os.Base.{
  ℕ, zero, suc, ◌+◌, ◌-◌, ◌*◌, ◌%◌, ◌^◌, Bool, true, false, ◌&&◌, ◌||◌, not, List, [], ◌∷◌, ◌++◌,
  ◌==◌, ltb, leb, if◌then◌else◌, min, length, take, Text, Res, ok, fault, ◌>>=◌,
}
use umka_os.Base.Int.{ℤ, pos, negsuc, pos_part, ltb_ℤ}
use umka_os.Fmt.{Writer, size_word, str_write}
use umka_os.Fmt.Printf.{
  Arg, string, next_word32, Length, len_none, len_hh, len_h, len_l, len_ll, len_j, len_z, len_t,
  Spec, parse_spec,
}
use umka_os.Fmt.Printf.Argument.{next_address, Doubles, number}
use umka_os.Fmt.Printf.Layout.{put_number, justify}

-- A number that `%n` has stored: where, in how many bytes, and the value.
pub record Store : Type 0 where
  pub at_ : ℕ
  pub bytes : ℕ
  pub value : ℕ

-- What has been written to the stream, the arguments that are left, what `%n` has stored, and whether
-- there has been a write, which may be of no characters.
pub record Printing (D : Type 0) : Type 0 where
  pub out : Text
  pub args : List (Arg D)
  pub stores : List Store
  pub written : Bool

-- `s->write`
unfoldable pub put : {D : Type 0} → Printing D → Text → Printing D
put s text = record s { out = s.out ++ text; written = true }

-- Padding alone: a write for each character.
unfoldable pub pad : {D : Type 0} → Printing D → Text → Printing D
pad s [] = s
pad s (c ∷ text) = put s (c ∷ text)

-- The sizes of the numbers that `%n` stores: the cases have no `break`.
unfoldable pub store_sizes : Length → List ℕ
store_sizes len_none = 4 ∷ []
store_sizes len_t = 4 ∷ 4 ∷ []
store_sizes len_z = 4 ∷ 4 ∷ 4 ∷ []
store_sizes len_j = 8 ∷ 4 ∷ 4 ∷ 4 ∷ []
store_sizes len_ll = 8 ∷ 8 ∷ 4 ∷ 4 ∷ 4 ∷ []
store_sizes len_l = 4 ∷ 8 ∷ 8 ∷ 4 ∷ 4 ∷ 4 ∷ []
store_sizes len_h = 2 ∷ 4 ∷ 8 ∷ 8 ∷ 4 ∷ 4 ∷ 4 ∷ []
store_sizes len_hh = 1 ∷ 2 ∷ 4 ∷ 8 ∷ 8 ∷ 4 ∷ 4 ∷ 4 ∷ []

unfoldable pub store_each : {D : Type 0} → ℕ → List ℕ → Printing D → Res (Printing D)
store_each value [] s = ok s
store_each value (bytes ∷ sizes) s = next_address s.args >>= λ (at_, args).
    store_each value sizes (record s {
      args = args;
      stores =
          s.stores ++ record { at_ = at_; bytes = bytes; value = value % 2 ^ (8 * bytes) } ∷ [];
    })

-- `va_arg(ap, char *)`
unfoldable pub next_string : {D : Type 0} → List (Arg D) → Res (Text × List (Arg D))
next_string (string text ∷ args) = ok (text, args)
next_string _ = fault

-- The size of a string for `%s`: its length, or the precision where that is less.
unfoldable pub string_size : ℤ → Text → ℤ
string_size (negsuc zero) str = pos (length str)
string_size precision str =
    if ltb_ℤ precision (pos (length str)) then precision else pos (length str)

-- `s->write(s, str, size)`; a negative size is a huge `size_t`.
unfoldable pub string_part : ℤ → Text → Res Text
string_part (pos size) str = ok (take size str)
string_part (negsuc size) str = fault

module _ {D : Type 0} (d : Doubles D) (told : ℕ → ℕ) where
  unfoldable pub print_percent : Spec → Printing D → Res (Printing D)
  print_percent spec s =
      justify spec.flags.left spec.width (pos 1) (b'%' ∷ []) >>= λ text. ok (put s text)

  unfoldable pub print_char : Spec → Printing D → Res (Printing D)
  print_char spec s = next_word32 s.args >>= λ (c, args).
      justify spec.flags.left spec.width (pos 1) (c % 256 ∷ []) >>= λ text.
      ok (put (record s { args = args }) text)

  unfoldable pub print_string : Spec → Printing D → Res (Printing D)
  print_string spec s = next_string s.args >>= λ (str, args).
      let size = string_size spec.precision str in
      string_part size str >>= λ part. justify spec.flags.left spec.width size part >>= λ text.
      ok (put (record s { args = args }) text)

  -- `%n`; `told` is `s->tell(s) - start` after so many characters.
  unfoldable pub print_count : Spec → Printing D → Res (Printing D)
  print_count spec s = justify spec.flags.left spec.width (pos 0) [] >>= λ text.
      let before = if spec.flags.left then s else pad s text in
      store_each (told (length before.out)) (store_sizes spec.length_) before >>= λ s'.
      ok (if spec.flags.left then pad s' text else s')

  unfoldable pub print_number : ℕ → Spec → Printing D → Res (Printing D)
  print_number c spec s = number d c spec s.args >>= λ n.
      put_number spec.flags n.decorated n.base spec.width spec.precision n.is_double n.text
      >>= λ text. ok (put (record s { args = n.args }) text)

  -- The `switch` over the letter of a directive.
  unfoldable pub print_directive : ℕ → Spec → Printing D → Res (Printing D)
  print_directive c spec s =
      if c == b'%'
      then print_percent spec s
      else if c == b'c'
      then print_char spec s
      else if c == b's'
      then print_string spec s
      else if c == b'n'
      then print_count spec s
      else print_number c spec s

  -- The letter; at the end of the format `fmt++` would go behind the terminator.
  unfoldable pub print_letter : Spec → Text → Printing D → Res (Text × Printing D)
  print_letter spec [] s = fault
  print_letter spec (c ∷ fmt) s = print_directive c spec s >>= λ s'. ok (fmt, s')

  -- What follows a `%`: the rest of the format, and the state.
  unfoldable pub directive : Text → Printing D → Res (Text × Printing D)
  directive fmt s = parse_spec fmt s.args >>= λ (spec, fmt', args).
      print_letter spec fmt' (record s { args = args })

  -- `while (*fmt)`, with a bound on the rounds.
  unfoldable pub run : ℕ → Text → Printing D → Res (Printing D)
  run n [] s = ok s
  run zero (c ∷ fmt) s = fault
  run (suc n) (c ∷ fmt) s = elim (c == b'%') [
    | true ↦ directive fmt s >>= λ (rest, s'). run n rest s'
    | false ↦ run n fmt (put s (c ∷ []))
  ]

  -- `fmtvprintf`: what it writes, stores and leaves; it returns the number of characters.
  unfoldable pub fmtvprintf : Text → List (Arg D) → Res (Printing D)
  fmtvprintf fmt args =
      run (length fmt) fmt (record { out = []; args = args; stores = []; written = false })

-- `vsnprintf`: the string stream, and what `%n` has stored. Without a write there is no terminator.
unfoldable pub vsnprintf :
    {D : Type 0} → Doubles D → ℕ → Text → List (Arg D) → Res (Writer × List Store)
vsnprintf d size fmt args = fmtvprintf d (λ n. min n (size - 1)) fmt args >>= λ s.
    let w : Writer = record { data_ = []; size = size; supposedoffs = 0; ended = false } in
    ok (if s.written then str_write w s.out else w, s.stores)
