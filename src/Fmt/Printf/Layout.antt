-- ===== src/Fmt/Printf/Layout.antt =====
-- Where `fmtvprintf` puts the padding, the prefix and the zeros of a directive.
pub mod Shape
use umka_os.Base.{
  ℕ, ◌-◌, Bool, true, false, ◌&&◌, not, List, [], ◌∷◌, ◌++◌, Option, none, some, ◌==◌,
  if◌then◌else◌, length, replicate, Text, Res, ok, fault, ◌>>=◌,
}
use umka_os.Base.Int.{ℤ, pos, pos_part, ◌-ℤ◌, ltb_ℤ, checked}
use umka_os.Fmt.Printf.{Flags}

-- `for (int i = 0; i < n; i++) s->write(s, c, 1)`
unfoldable pub repeat : ℕ → ℤ → Text
repeat c n = replicate (pos_part n) c

-- What `decorated` adds; it reads `base`, which only some directives set.
unfoldable pub prefix : Bool → Option ℕ → Res Text
prefix false base = ok []
prefix true none = fault
prefix true (some base) =
    if base == 16 then ok (b'0' ∷ b'x' ∷ []) else if base == 8 then ok (b'0' ∷ []) else ok []

-- `precision - numlen`, where the directive has a precision that counts.
unfoldable pub missing : ℤ → Bool → Text → ℤ
missing precision is_double num =
    if ltb_ℤ (pos 0) precision && not is_double then precision -ℤ pos (length num) else pos 0

-- The branch for `leftjustify` where the number is shorter than the width.
unfoldable pub put_left : ℤ → Text → ℤ → Text → Text
put_left padding before zeros num =
    before
    ++ repeat b'0' zeros
    ++ num
    ++ repeat b' ' (padding -ℤ pos (length before) -ℤ pos (pos_part zeros))

-- The branch without it.
unfoldable pub put_right : Bool → ℤ → Text → ℤ → Text → Text
put_right padzero padding before zeros num =
    let pad = padding -ℤ pos (length before) -ℤ zeros in
    (if padzero then before else [])
    ++ repeat (if padzero then b'0' else b' ') pad
    ++ (if padzero then [] else before)
    ++ repeat b'0' zeros
    ++ num

-- From `int padding` on.
unfoldable pub put_number : Flags → Bool → Option ℕ → ℤ → ℤ → Bool → Text → Res Text
put_number flags decorated base width precision is_double num =
    checked (width -ℤ pos (length num)) >>= λ padding. prefix decorated base >>= λ before.
    let zeros = missing precision is_double num in
    ok (
      if ltb_ℤ (pos (length num)) width
      then (if flags.left
          then put_left padding before zeros num
          else put_right flags.zeros padding before zeros num)
      else before ++ repeat b'0' zeros ++ num)

-- The padding of `%`, `c`, `s` and `n` around `body`, which counts for `size` characters.
unfoldable pub justify : Bool → ℤ → ℤ → Text → Res Text
justify left width size body = checked (width -ℤ size) >>= λ padding.
    ok (if left then body ++ repeat b' ' padding else repeat b' ' padding ++ body)
