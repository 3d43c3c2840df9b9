-- ===== src/Fmt/Scanf/Tests.antt =====
-- `fmtvscanf` at a concrete input.
use umka_os.Base.{ℕ, ◌+◌, ◌*◌, ◌≡◌, [], ◌∷◌, arith, codes, ok}
use umka_os.Base.Int.{pos_part}
use umka_os.Fmt.Printf.{word32}
use umka_os.Fmt.Printf.Tests.{wholes}
use umka_os.Fmt.Printf.Run.{Printing, fmtvprintf}
use umka_os.Fmt.Scanf.{Reals, bits, fmtvscanf}
use umka_os.Fmt.Scanf.Back.{fmtvscanf-fmtvprintf}

abbrev reals : Reals ℕ
reals = record {
  of_int = pos_part;
  of_ull = λ n. n;
  plus = λ a b. a + b;
  times = λ a b. a * b;
  over = λ a b. 0;
  exp = λ a. 1;
  log = λ a. 0;
}

-- -7 in a field of 5 characters.
fmtvscanf-fmtvprintf_example :
    (s : Printing ℕ) × (fmtvprintf wholes (λ n. n) (codes "%*d") (word32 5 ∷ word32 0xFFFFFFF9 ∷ [])
      ≡ ok s)
    × (fmtvscanf reals s.out (codes "%d") (1000 ∷ [])
        ≡ ok (record { rest = []; pointers = []; num = 1; stored = (1000, bits 0xFFFFFFF9) ∷ [] }))
fmtvscanf-fmtvprintf_example =
    fmtvscanf-fmtvprintf wholes (λ n. n) reals 5 0xFFFFFFF9 1000 (omega arith) (omega arith)
