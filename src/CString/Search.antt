-- ===== src/CString/Search.antt =====
-- `strrchr` of src/mock_libc/mock_libc.c.
use umka_os.Base.{
  ℕ, suc, ◌+◌, ◌≡◌, ◌≢◌, refl, ◌∙◌, ap, ◌⊎◌, inl, inr, Bool, true, false, ◌&&◌, not, Option, none,
  some, [], ◌∷◌, ◌++◌, arith, Bool-cases, if◌then◌else◌, length, Text,
}
use umka_os.Base.Int.{ℤ, pos_part, neg_part, ltb_ℤ, eq_of_parts}
use umka_os.CString.Compare.{char_value}

-- `*s == ch`, where the character is signed.
unfoldable pub matches : ℕ → ℤ → Bool
matches c ch = not (ltb_ℤ (char_value c) ch) && not (ltb_ℤ ch (char_value c))

-- The loop of `strrchr`: where the last match is, `s` being at `i` and `p` what was found so far.
unfoldable pub last_match : Text → ℤ → ℕ → Option ℕ → Option ℕ
last_match [] ch i p = p
last_match (c ∷ s) ch i p = last_match s ch (i + 1) (if matches c ch then some i else p)

-- `strrchr`; none for NULL.
unfoldable pub strrchr : Text → ℤ → Option ℕ
strrchr s ch = last_match s ch 0 none

-- No character of the text is the one that is sought.
abbrev pub Lacks : Text → ℤ → Type 0
Lacks [] ch = Unit
Lacks (c ∷ s) ch = (char_value c ≢ ch) × Lacks s ch

matches-true : (c : ℕ) (ch : ℤ) → matches c ch ≡ true → char_value c ≡ ch
unfolding matches
matches-true c ch h = eq_of_parts (char_value c) ch (ground arith)

matches-false : (c : ℕ) (ch : ℤ) → matches c ch ≡ false → char_value c ≢ ch
unfolding matches
matches-false c ch h same = ground (arith, ap pos_part same, ap neg_part same)

-- The text splits at its last match.
abbrev pub Splits : Text → ℤ → (ℕ → Type 0) → Type 0
Splits s ch At =
    (before after : Text) × (c : ℕ) × (s ≡ before ++ c ∷ after)
    × (char_value c ≡ ch)
    × Lacks after ch
    × At (length before)

last_match-cases :
    (s : Text) (ch : ℤ) (i : ℕ) (p : Option ℕ)
    → (Lacks s ch × (last_match s ch i p ≡ p))
      ⊎ Splits s ch (λ at_. last_match s ch i p ≡ some (i + at_))
unfolding last_match
last_match-cases [] ch i p = inl (tt, refl)
last_match-cases (c ∷ s) ch i p =
    elim (last_match-cases s ch (i + 1) (if matches c ch then some i else p)) [
      | inr (before, after, x, e, m, none_behind, found) ↦
          let next : i + 1 + length before ≡ i + suc (length before) = omega arith in
          inr (c ∷ before, after, x, ap (λ l. c ∷ l) e, m, none_behind, found ∙ ap some next)
      | inl (lacks, found) ↦ elim (Bool-cases (matches c ch)) [
        | inl hit ↦
            let here : i ≡ i + 0 = omega arith in
            inr ([], s, c, refl, matches-true c ch hit, lacks, found ∙ rw hit (ap some here))
        | inr miss ↦ inl ((matches-false c ch miss, lacks), found ∙ rw miss refl)
      ]
    ]

-- `strrchr` returns NULL where no character of the string is the one that is sought, and otherwise
-- points to one that is, with none behind it.
pub strrchr-cases :
    (s : Text) (ch : ℤ)
    → (Lacks s ch × (strrchr s ch ≡ none)) ⊎ Splits s ch (λ at_. strrchr s ch ≡ some at_)
unfolding strrchr
strrchr-cases s ch = elim (last_match-cases s ch 0 none) [
  | inl h ↦ inl h
  | inr (before, after, c, e, m, none_behind, found) ↦
      let start : 0 + length before ≡ length before = omega arith in
      inr (before, after, c, e, m, none_behind, found ∙ ap some start)
]
