-- ===== src/Memory/Moves.antt =====
-- What the copying functions leave at every address.
use umka_os.Base.{
  ℕ, zero, suc, ◌+◌, ◌-◌, ◌≤◌, ◌<◌, ◌≡◌, sym, ◌∙◌, ap, ap₂, ◌⊎◌, inl, inr, ◌&&◌, arith, ltb, leb,
  ltb→lt, not_ltb→le, Bool-cases, if◌then◌else◌, update, update_self, update_other, eq-cases,
  fun_ext,
}
use umka_os.Memory.{Bytes, copy_up, copy_down, memcpy, memmove}

-- The memory after a copy of `n` bytes from `s` to `d`, in terms of the memory before.
unfoldable pub copied : Bytes → ℕ → ℕ → ℕ → Bytes
copied m d s n q = if leb d q && ltb q (d + n) then m (s + (q - d)) else m q

copied-in : (m : Bytes) (d s n q : ℕ) → d ≤ q → q < d + n → copied m d s n q ≡ m (s + (q - d))
unfolding copied
copied-in m d s n q lo hi = ground arith

copied-out : (m : Bytes) (d s n q : ℕ) → (q < d) ⊎ (d + n ≤ q) → copied m d s n q ≡ m q
unfolding copied
copied-out m d s n q h = ground arith

-- An address is inside a region or outside of it.
In-or-out : (d n q : ℕ) → ((d ≤ q) × (q < d + n)) ⊎ ((q < d) ⊎ (d + n ≤ q))
In-or-out d n q = elim (Bool-cases (ltb q d)) [
  | inl e ↦ inr (inl (ltb→lt q d e))
  | inr e ↦ elim (Bool-cases (ltb q (d + n))) [
    | inl f ↦ inl (not_ltb→le q d e, ltb→lt q (d + n) f)
    | inr f ↦ inr (inr (not_ltb→le q (d + n) f))
  ]
]

-- A copy that starts with its first byte.
copied-first :
    (m : Bytes) (d s n q : ℕ)
    → (d ≤ s) ⊎ (s + suc n ≤ d)
    → copied (update m d (m s)) (d + 1) (s + 1) n q ≡ copied m d s (suc n) q
copied-first m d s n q h = elim (eq-cases q d) [
  | inl e ↦
      let at_s : s + (q - d) ≡ s = omega arith in
      copied-out (update m d (m s)) (d + 1) (s + 1) n q (inl (omega arith))
      ∙ ap (update m d (m s)) e
      ∙ update_self m d (m s)
      ∙ ap m (sym at_s)
      ∙ sym (copied-in m d s (suc n) q (omega arith) (omega arith))
  | inr ne ↦ elim (In-or-out (d + 1) n q) [
    | inl (lo, hi) ↦
        let shift : s + 1 + (q - (d + 1)) ≡ s + (q - d) = omega arith in
        copied-in (update m d (m s)) (d + 1) (s + 1) n q lo hi
        ∙ ap (update m d (m s)) shift
        ∙ update_other m d (m s) (s + (q - d)) (λ e. omega arith)
        ∙ sym (copied-in m d s (suc n) q (omega arith) (omega arith))
    | inr out ↦
        copied-out (update m d (m s)) (d + 1) (s + 1) n q out
        ∙ update_other m d (m s) q ne
        ∙ sym (copied-out m d s (suc n) q (omega arith))
  ]
]

-- A copy that starts with its last byte.
copied-last :
    (m : Bytes) (d s n q : ℕ)
    → s ≤ d
    → copied (update m (d + n) (m (s + n))) d s n q ≡ copied m d s (suc n) q
copied-last m d s n q h = elim (eq-cases q (d + n)) [
  | inl e ↦
      let at_s : s + (q - d) ≡ s + n = omega arith in
      copied-out (update m (d + n) (m (s + n))) d s n q (inr (omega arith))
      ∙ ap (update m (d + n) (m (s + n))) e
      ∙ update_self m (d + n) (m (s + n))
      ∙ ap m (sym at_s)
      ∙ sym (copied-in m d s (suc n) q (omega arith) (omega arith))
  | inr ne ↦ elim (In-or-out d n q) [
    | inl (lo, hi) ↦
        copied-in (update m (d + n) (m (s + n))) d s n q lo hi
        ∙ update_other m (d + n) (m (s + n)) (s + (q - d)) (λ e. omega arith)
        ∙ sym (copied-in m d s (suc n) q lo (omega arith))
    | inr out ↦
        copied-out (update m (d + n) (m (s + n))) d s n q out
        ∙ update_other m (d + n) (m (s + n)) q ne
        ∙ sym (copied-out m d s (suc n) q (omega arith))
  ]
]

copied-none : (m : Bytes) (d s q : ℕ) → m q ≡ copied m d s 0 q
copied-none m d s q = sym (copied-out m d s 0 q (omega arith))

copy_up-copied :
    (n : ℕ) (m : Bytes) (d s q : ℕ) → (d ≤ s) ⊎ (s + n ≤ d) → copy_up m d s n q ≡ copied m d s n q
unfolding copy_up
copy_up-copied zero m d s q h = copied-none m d s q
copy_up-copied (suc n) m d s q h =
    copy_up-copied n (update m d (m s)) (d + 1) (s + 1) q (omega arith) ∙ copied-first m d s n q h

copy_down-copied :
    (n : ℕ) (m : Bytes) (d s q : ℕ) → s ≤ d → copy_down m (d + n) (s + n) n q ≡ copied m d s n q
unfolding copy_down
copy_down-copied zero m d s q h = copied-none m d s q
copy_down-copied (suc n) m d s q h =
    let e : d + suc n - 1 ≡ d + n = omega arith in
    let f : s + suc n - 1 ≡ s + n = omega arith in
    ap₂ (λ a b. copy_down (update m a (m b)) a b n q) e f
    ∙ copy_down-copied n (update m (d + n) (m (s + n))) d s q h
    ∙ copied-last m d s n q h

-- `memmove` leaves in the target what was in the source before, wherever the two overlap, and
-- every other byte alone.
pub memmove-copied : (m : Bytes) (dest src n q : ℕ) → memmove m dest src n q ≡ copied m dest src n q
unfolding memmove
memmove-copied m dest src n q = elim (Bool-cases (ltb dest src)) [
  | inl e ↦ rw (e) (copy_up-copied n m dest src q (inl (omega (arith, ltb→lt dest src e))))
  | inr e ↦ rw (e) (copy_down-copied n m dest src q (not_ltb→le dest src e))
]

-- Where the target begins at or before the source, or behind its end, `memcpy` leaves the same memory as
-- `memmove`.
pub memcpy-memmove :
    (m : Bytes) (dest src n : ℕ)
    → (dest ≤ src) ⊎ (src + n ≤ dest)
    → memcpy m dest src n ≡ memmove m dest src n
unfolding memcpy
memcpy-memmove m dest src n apart =
    fun_ext (λ q. copy_up-copied n m dest src q apart ∙ sym (memmove-copied m dest src n q))
