-- ===== src/Memory/Strings.antt =====
-- `strlen`, `strcpy` and `strcat` of src/mock_libc/mock_libc.c, on a memory of bytes. The loops take
-- fuel.
use umka_os.Base.{
  ℕ, zero, suc, ◌+◌, ◌≤◌, ◌<◌, ◌≡◌, ◌≢◌, refl, sym, ◌∙◌, ap, ◌⊎◌, true, false, [], ◌∷◌, arith, ◌==◌,
  ==-false, length, subst, Text, Res, ok, fault, ◌>>=◌, update, update_other,
}
use umka_os.Memory.{Bytes, copy_up, memcpy}

-- The loop of `strlen`, at the character `i`.
unfoldable pub strlen_loop : ℕ → Bytes → ℕ → ℕ → Res ℕ
strlen_loop zero m s i = fault
strlen_loop (suc k) m s i = elim (m (s + i) == 0) [
  | true ↦ ok i
  | false ↦ strlen_loop k m s (i + 1)
]

unfoldable pub strlen : ℕ → Bytes → ℕ → Res ℕ
strlen fuel m s = strlen_loop fuel m s 0

-- `strcpy`; the pointers stand for `d + i` and `s + i`.
unfoldable pub strcpy : ℕ → Bytes → ℕ → ℕ → Res Bytes
strcpy zero m d s = fault
strcpy (suc k) m d s = elim (m s == 0) [
  | true ↦ ok (update m d 0)
  | false ↦ strcpy k (update m d (m s)) (d + 1) (s + 1)
]

-- `strcat`: its first loop is that of `strlen`, its second that of `strcpy`.
unfoldable pub strcat : ℕ → Bytes → ℕ → ℕ → Res Bytes
strcat fuel m d s = strlen fuel m d >>= λ i. strcpy fuel m (d + i) s

-- The string at `p`, with its terminator.
abbrev pub IsString : Bytes → ℕ → Text → Type 0
IsString m p [] = m p ≡ 0
IsString m p (c ∷ text) = (m p ≡ c) × (c ≢ 0) × IsString m (p + 1) text

pub IsString-update :
    (m : Bytes) (p q b : ℕ) (text : Text)
    → (q < p) ⊎ (p + length text < q)
    → IsString m p text
    → IsString (update m q b) p text
IsString-update m p q b [] away s = update_other m q b p (λ e. omega arith) ∙ s
IsString-update m p q b (c ∷ text) away (e, ne, s) = (
  update_other m q b p (λ z. omega arith) ∙ e,
  ne,
  IsString-update m (p + 1) q b text (omega arith) s,
)

pub strlen_loop-length :
    (k : ℕ) (m : Bytes) (p i : ℕ) (text : Text)
    → IsString m (p + i) text
    → length text < k
    → strlen_loop k m p i ≡ ok (i + length text)
unfolding strlen_loop
strlen_loop-length zero m p i text s enough = absurd (omega arith)
strlen_loop-length (suc k) m p i [] s enough = rw (strlen_loop, s) (ap ok (omega arith))
strlen_loop-length (suc k) m p i (c ∷ text) (e, ne, s) enough =
    let on : p + i + 1 ≡ p + (i + 1) = omega arith in
    let total : i + 1 + length text ≡ i + suc (length text) = omega arith in
    rw (strlen_loop, e, ==-false c 0 ne)
      (strlen_loop-length k m p (i + 1) text (subst (λ a. IsString m a text) on s) (omega arith)
        ∙ ap ok total)

strcpy-copy_up :
    (k : ℕ) (m : Bytes) (d p : ℕ) (text : Text)
    → IsString m p text
    → (d ≤ p) ⊎ (p + length text < d)
    → length text < k
    → strcpy k m d p ≡ ok (copy_up m d p (suc (length text)))
unfolding strcpy copy_up
strcpy-copy_up zero m d p text s apart enough = absurd (omega arith)
strcpy-copy_up (suc k) m d p [] s apart enough = rw (strcpy, s) refl
strcpy-copy_up (suc k) m d p (c ∷ text) (e, ne, s) apart enough =
    let goes_on : (m p == 0) ≡ false = ==-false (m p) 0 (λ z. ne (sym e ∙ z)) in
    rw (strcpy, goes_on)
      (strcpy-copy_up k (update m d (m p)) (d + 1) (p + 1) text
        (IsString-update m (p + 1) d (m p) text (omega arith) s) (omega arith) (omega arith))

-- Appending the string at `s` to the string at `d` ends, where what is written does not reach the
-- string at `s` from behind, and leaves the memory that copying `s` with its terminator to the
-- terminator of `d` leaves. Fuel for one more round than either string has characters is enough.
pub strcat-memcpy :
    (fuel : ℕ) (m : Bytes) (d s : ℕ) (first second : Text)
    → IsString m d first
    → IsString m s second
    → (d + length first ≤ s) ⊎ (s + length second < d + length first)
    → length first < fuel
    → length second < fuel
    → strcat fuel m d s ≡ ok (memcpy m (d + length first) s (suc (length second)))
unfolding strcat strlen memcpy
strcat-memcpy fuel m d s first second at_d at_s apart enough enough' =
    let here : d ≡ d + 0 = omega arith in
    let end : d + (0 + length first) ≡ d + length first = omega arith in
    rw (strlen_loop-length fuel m d 0 first (subst (λ a. IsString m a first) here at_d) enough) (
      ap (λ a. strcpy fuel m a s) end
      ∙ strcpy-copy_up fuel m (d + length first) s second at_s apart enough')
