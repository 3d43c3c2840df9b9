-- ===== src/Fmt/Printf/Tests.antt =====
-- `fmtvprintf` at concrete inputs.
use umka_os.Base.{
  ℕ, ◌*◌, ◌≡◌, ◌≤◌, refl, inl, inr, true, false, some, [], ◌∷◌, ◌++◌, arith, codes, length, ok,
}
use umka_os.Base.Int.{pos, negsuc}
use umka_os.Fmt.{parse_ll}
use umka_os.Fmt.Printf.{no_flags, Flags, word32, word64, string}
use umka_os.Fmt.Printf.Argument.{Doubles}
use umka_os.Fmt.Printf.Layout.{prefix, put_number}
use umka_os.Fmt.Printf.Layout.Shape.{layout, fill_for, zeros_for, put_number-layout}
use umka_os.Fmt.Printf.Run.{Printing, run, fmtvprintf}
use umka_os.Fmt.Printf.Run.Fuel.{Prints, run_all-Prints}
use umka_os.Fmt.Printf.Run.Numbers.{parse_ll-fmtvprintf}

-- Numbers without a fraction stand for the values of `double`.
abbrev pub wholes : Doubles ℕ
wholes = record {
  is_negative = λ n. false;
  negated = λ n. n;
  whole = λ n. ok n;
  minus_whole = λ n m. 0;
  times_ten = λ n. n * 10;
  as_int = λ n. ok (pos n);
}

abbrev told : ℕ → ℕ
told n = n

-- `%#8x` of 255 is `    0xff`.
abbrev hash : Flags
hash = record no_flags { decorated = true }

put_number-layout_example :
    put_number hash true (some 16) (pos 8) (negsuc 0) false (codes "ff")
    ≡ ok (
        layout hash
          (codes "0x")
          (fill_for (pos 8) (codes "0x") (zeros_for (negsuc 0) false (codes "ff")) (codes "ff"))
          (zeros_for (negsuc 0) false (codes "ff"))
          (codes "ff"))
unfolding prefix
put_number-layout_example =
    put_number-layout hash true (some 16) (pos 8) (negsuc 0) false (codes "ff") (codes "0x") refl
      (omega arith) (omega arith) (inr (inr (inl refl)))

abbrev blank : Printing ℕ
blank = record { out = []; args = string (codes "abc") ∷ []; stores = []; written = false }

run_all-Prints_example :
    Prints wholes told (codes "%5s!") blank (run wholes told 4 (codes "%5s!") blank)
run_all-Prints_example = run_all-Prints wholes told (codes "%5s!") blank

-- The word of -2 in a field of 6 characters.
parse_ll-fmtvprintf_example :
    (s : Printing ℕ) × (fmtvprintf wholes told
        (codes "%*lld")
        (word32 6 ∷ word64 0xFFFFFFFFFFFFFFFE ∷ [])
      ≡ ok s)
    × (parse_ll (s.out ++ []) 10 ≡ ok (0xFFFFFFFFFFFFFFFE, []))
    × (6 ≤ length s.out)
parse_ll-fmtvprintf_example =
    parse_ll-fmtvprintf wholes told 6 0xFFFFFFFFFFFFFFFE [] (omega arith) (omega arith) tt

-- `id 7` in a buffer of 4 characters.
abbrev printed : Printing ℕ
printed = record { out = codes "id 7"; args = []; stores = []; written = true }
