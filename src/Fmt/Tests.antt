-- ===== src/Fmt/Tests.antt =====
-- Numbers and string streams at concrete inputs.
use umka_os.Base.{
  ◌≡◌, refl, inl, inr, true, false, ◌-◌, ◌^◌, ◌%◌, List, [], ◌∷◌, ◌++◌, arith, codes, length, Text,
  ok,
}
use umka_os.Fmt.Source.{
  mk_str_s, Source, str_peek, str_read, text_peek, text_read, answers, peeks, reads,
}
use umka_os.Fmt.Source.Strings.{rest, answers-str}
use umka_os.Fmt.Convert.{strtoull, strtoll, strtol, strtoll-stringify_ll}
use umka_os.Fmt.{digit_value, is_digit, stringify_ull, stringify_ll}

-- Two characters are looked at, then one and again five are read.
answers-str_example :
    (texts : List Text) × (s : Source) × (answers str_peek str_read
        (peeks 2 ∷ reads 1 ∷ reads 5 ∷ [])
        (mk_str_s (codes "abc") 4)
      ≡ ok (texts, s))
    × (answers text_peek text_read (peeks 2 ∷ reads 1 ∷ reads 5 ∷ []) (codes "abc")
        ≡ ok (texts, rest s))
answers-str_example = answers-str (peeks 2 ∷ reads 1 ∷ reads 5 ∷ []) (codes "abc") 4 (omega arith)

strtoll-stringify_ll_example :
    (unsigned signed : Text) × (stringify_ull false 10 (2 ^ 64 - 7) ≡ ok unsigned)
    × (stringify_ll false 10 true false (2 ^ 64 - 7) ≡ ok signed)
    × (strtoull (unsigned ++ codes " x") 10 ≡ ok (2 ^ 64 - 7, length unsigned))
    × (strtoll (signed ++ codes " x") 10 ≡ ok (2 ^ 64 - 7, length signed))
    × (strtol (signed ++ codes " x") 10 ≡ ok ((2 ^ 64 - 7) % 2 ^ 32, length signed))
unfolding is_digit digit_value
strtoll-stringify_ll_example =
    strtoll-stringify_ll false true false 10 (2 ^ 64 - 7) (codes " x") (inr (inl refl))
      (omega arith) (refl, omega arith)
