-- ===== src/Fmt/Printf/Run/Fuel.antt =====
-- The loop of `fmtvprintf` reads on in the format with every round, so it ends.
use umka_os.Base.{
  subst, eq-cases, Res-cases, ℕ, zero, suc, ◌+◌, ◌*◌, ◌-◌, ◌^◌, ◌≤◌, ◌≡◌, ◌≢◌, sym, inl, inr, Bool,
  true, false, List, [], ◌∷◌, Option-cases, arith, ◌==◌, ==-false, ltb, if◌then◌else◌, Bool-cases,
  length, Text, Res, ok, fault, ◌>>=◌, Bounded, >>=-Bounded, Bounded-le, any-Bounded,
}
use umka_os.Base.Int.{ℤ, pos}
use umka_os.Fmt.Printf.{
  Flags, no_flags, set_flag, parse_flags, Arg, next_word32, to_int, decimal, scan_int, parse_width,
  parse_point, parse_precision, Length, len_h, len_hh, len_l, len_ll, parse_double, parse_length,
  Spec, parse_spec,
}
use umka_os.Fmt.Printf.Argument.{Doubles}
use umka_os.Fmt.Printf.Run.{Printing, put, print_directive, print_letter, directive, run}

parse_flags-le : (text : Text) (f : Flags) → length (parse_flags text f).1 ≤ length text
unfolding parse_flags
parse_flags-le [] f = omega arith
parse_flags-le (c ∷ text) f = elim (Option-cases (set_flag c f)) [
  | inl e ↦ rw (parse_flags, e) (omega arith)
  | inr (g, e) ↦ rw (parse_flags, e) (let h = parse_flags-le text g in omega arith)
]

Bounded-if :
    {A : Type 0} (size : A → ℕ) (n : ℕ) (b : Bool) (x y : Res A)
    → Bounded size n x
    → Bounded size n y
    → Bounded size n (if b then x else y)
Bounded-if size n true x y h g = h
Bounded-if size n false x y h g = g

scan_int-Bounded : (text : Text) (n : ℕ) → Bounded (λ p. length p.1) (length text) (scan_int n text)
unfolding scan_int
scan_int-Bounded [] n = omega arith
scan_int-Bounded (c ∷ text) n = elim (Bool-cases (decimal c)) [
  | inr e ↦ rw (scan_int, e) (omega arith)
  | inl e ↦
      let m = n * 10 + (c - b'0') in
      rw (scan_int, e)
        (Bounded-if (λ p. length p.1) (suc (length text)) (ltb m (2 ^ 31)) (scan_int m text) fault
          (Bounded-le (λ p. length p.1) (length text) (suc (length text)) (scan_int m text)
            (omega arith) (scan_int-Bounded text m))
          tt)
]

module _ {D : Type 0} where
  -- The part of the format that a parser leaves.
  abbrev left : ℤ × Text × List (Arg D) → ℕ
  left p = length p.1

  number-Bounded :
      (text : Text) (args : List (Arg D))
      → Bounded left (length text) (scan_int 0 text >>= λ (n, rest). ok (pos n, rest, args))
  number-Bounded text args =
      >>=-Bounded (λ p. length p.1) left (length text) (length text) (scan_int 0 text)
        (λ (n, rest). ok (pos n, rest, args)) (scan_int-Bounded text 0) (λ p h. h)

  star-Bounded :
      (text : Text) (n : ℕ) (args : List (Arg D))
      → length text ≤ n
      → Bounded left n (next_word32 args >>= λ (n, args'). ok (to_int n, text, args'))
  star-Bounded text n args h =
      >>=-Bounded (λ p. 0) left 0 n (next_word32 args) (λ (n, args'). ok (to_int n, text, args'))
        (any-Bounded (next_word32 args)) (λ p g. h)

  parse_width-Bounded :
      (text : Text) (args : List (Arg D)) → Bounded left (length text) (parse_width text args)
  unfolding parse_width
  parse_width-Bounded [] args = omega arith
  parse_width-Bounded (c ∷ text) args =
      Bounded-if left (suc (length text)) (c == b'*') _ _
        (star-Bounded text (suc (length text)) args (omega arith)) (number-Bounded (c ∷ text) args)

  parse_point-Bounded :
      (text : Text) (args : List (Arg D)) → Bounded left (length text) (parse_point text args)
  unfolding parse_point
  parse_point-Bounded [] args = omega arith
  parse_point-Bounded (c ∷ text) args =
      Bounded-if left (suc (length text)) (decimal c) _ _ (number-Bounded (c ∷ text) args) (
        Bounded-if left (suc (length text)) (c == b'*') _ _
          (star-Bounded text (suc (length text)) args (omega arith)) (omega arith))

  parse_precision-Bounded :
      (text : Text) (args : List (Arg D)) → Bounded left (length text) (parse_precision text args)
  unfolding parse_precision
  parse_precision-Bounded [] args = omega arith
  parse_precision-Bounded (c ∷ text) args =
      Bounded-if left (suc (length text)) (c == b'.') _ _
        (Bounded-le left (length text) (suc (length text)) (parse_point text args) (omega arith)
          (parse_point-Bounded text args))
        (omega arith)

parse_double-le :
    (c : ℕ) (once twice : Length) (text : Text)
    → length (parse_double c once twice text).1 ≤ length text
unfolding parse_double
parse_double-le c once twice [] = omega arith
parse_double-le c once twice (d ∷ text) = ground arith

parse_length-le : (text : Text) → length (parse_length text).1 ≤ length text
unfolding parse_length
parse_length-le [] = omega arith
parse_length-le (c ∷ text) =
    let h = parse_double-le b'h' len_h len_hh text in
    let l = parse_double-le b'l' len_l len_ll text in ground arith

parse_spec-Bounded :
    {D : Type 0} (fmt : Text) (args : List (Arg D))
    → Bounded (λ p. length p.1) (length fmt) (parse_spec fmt args)
unfolding parse_spec
parse_spec-Bounded fmt args =
    let n = length fmt in
    let (flags, fmt1) = parse_flags fmt no_flags in
    let width =
      Bounded-le left (length fmt1) n (parse_width fmt1 args) (parse_flags-le fmt no_flags)
        (parse_width-Bounded fmt1 args) in
    >>=-Bounded left (λ p. length p.1) n n (parse_width fmt1 args) _ width
      (λ (w, fmt2, args2) h2.
        >>=-Bounded left (λ p. length p.1) n n (parse_precision fmt2 args2) _
          (Bounded-le left (length fmt2) n (parse_precision fmt2 args2) h2
            (parse_precision-Bounded fmt2 args2))
          (λ (precision, fmt3, args3) h3. let h4 = parse_length-le fmt3 in omega arith))

module _ {D : Type 0} (d : Doubles D) (told : ℕ → ℕ) where
  directive-Bounded :
      (fmt : Text) (s : Printing D)
      → Bounded (λ p. length p.0) (length fmt) (directive d told fmt s)
  unfolding directive print_letter
  directive-Bounded fmt s =
      >>=-Bounded (λ p. length p.1) (λ p. length p.0) (length fmt) (length fmt)
        (parse_spec fmt s.args) _ (parse_spec-Bounded fmt s.args)
        (λ (spec, rest, args) h. letter spec rest (record s { args = args }) h)
    where
      letter :
          (spec : Spec) (rest : Text) (s' : Printing D)
          → length rest ≤ length fmt
          → Bounded (λ p. length p.0) (length fmt) (print_letter d told spec rest s')
      letter spec [] s' h = tt
      letter spec (c ∷ rest) s' h =
          >>=-Bounded (λ p. 0) (λ p. length p.0) 0 (length fmt) (print_directive d told c spec s') _
            (any-Bounded (print_directive d told c spec s')) (λ p g. omega arith)

  -- The loop with no bound on its rounds, as what a finite run from a format and a state can give.
  pub data Prints : Text → Printing D → Res (Printing D) → Type 0 where
    ends : (s : Printing D) → Prints [] s (ok s)
    plain :
        (c : ℕ) (fmt : Text) (s : Printing D) (r : Res (Printing D))
        → c ≢ b'%'
        → Prints fmt (put s (c ∷ [])) r
        → Prints (c ∷ fmt) s r
    stuck :
        (fmt : Text) (s : Printing D) → directive d told fmt s ≡ fault → Prints (b'%' ∷ fmt) s fault
    directed :
        (fmt : Text) (s : Printing D) (rest : Text) (s' : Printing D) (r : Res (Printing D))
        → directive d told fmt s ≡ ok (rest, s')
        → Prints rest s' r
        → Prints (b'%' ∷ fmt) s r

  run-Prints :
      (n : ℕ) (fmt : Text) (s : Printing D) → length fmt ≤ n → Prints fmt s (run d told n fmt s)
  unfolding run
  run-Prints n [] s h = ends s
  run-Prints zero (c ∷ fmt) s h = absurd (omega arith)
  run-Prints (suc n) (c ∷ fmt) s h = elim (eq-cases c b'%') [
    | inr ne ↦
        rw (run, ==-false c b'%' ne)
          (plain c fmt s (run d told n fmt (put s (c ∷ []))) ne
            (run-Prints n fmt (put s (c ∷ [])) (omega arith)))
    | inl percent ↦
        subst (λ k. Prints (k ∷ fmt) s (run d told (suc n) (k ∷ fmt) s)) (sym percent)
          (elim (Res-cases (directive d told fmt s)) [
            | inl e ↦ rw (e) (stuck fmt s e)
            | inr ((rest, s'), e) ↦
                let le =
                  subst (Bounded (λ p. length p.0) (length fmt)) e (directive-Bounded fmt s) in
                rw (e) (
                  directed fmt s rest s' (run d told n rest s') e
                    (run-Prints n rest s' (omega (arith, le))))
          ])
  ]

  -- The loop of `fmtvprintf` ends for every format and state, and what it gives with the length of the
  -- format as the bound on its rounds is what the loop without a bound gives, a fault included: a
  -- round for a plain character or a directive goes on with what is left of the format, and at its
  -- end the loop returns.
  pub run_all-Prints : (fmt : Text) (s : Printing D) → Prints fmt s (run d told (length fmt) fmt s)
  run_all-Prints fmt s = run-Prints (length fmt) fmt s (omega arith)
