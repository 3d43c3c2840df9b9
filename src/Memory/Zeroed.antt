-- ===== src/Memory/Zeroed.antt =====
-- What `memset` writes, and that `calloc` gives out a block of zeros.
use umka_os.Base.{
  ℕ, zero, suc, ◌+◌, ◌*◌, ◌%◌, ◌≤◌, ◌<◌, ◌≡◌, refl, ◌∙◌, ap, ◌⊎◌, List, arith, update, update_self,
  update_other, length, ok,
}
use umka_os.Alloc.{word, header, Heap}
use umka_os.Alloc.Blocks.{IsHeap}
use umka_os.Alloc.Give.{HasRoom, alloc-Given}
use umka_os.Memory.{Bytes, memset, calloc}

memset-outside : (n : ℕ) (m : Bytes) (p c q : ℕ) → (q < p) ⊎ (p + n ≤ q) → memset m p c n q ≡ m q
unfolding memset
memset-outside zero m p c q out = refl
memset-outside (suc n) m p c q out =
    memset-outside n (update m p (c % 256)) (p + 1) c q (omega arith)
    ∙ update_other m p (c % 256) q (λ e. omega arith)

memset-inside : (n : ℕ) (m : Bytes) (p c j : ℕ) → j < n → memset m p c n (p + j) ≡ c % 256
unfolding memset
memset-inside zero m p c j h = absurd (omega arith)
memset-inside (suc n) m p c zero h =
    let here : p + 0 ≡ p = omega arith in
    memset-outside n (update m p (c % 256)) (p + 1) c (p + 0) (omega arith)
    ∙ ap (update m p (c % 256)) here
    ∙ update_self m p (c % 256)
memset-inside (suc n) m p c (suc j) h =
    let on : p + suc j ≡ p + 1 + j = omega arith in
    ap (memset (update m p (c % 256)) (p + 1) c n) on
    ∙ memset-inside n (update m p (c % 256)) (p + 1) c j (omega arith)

module _ {h : Heap} {start : ℕ} {blocks frees : List ℕ} (v : IsHeap h start blocks frees)
    (nmemb size : ℕ) (room : HasRoom h (nmemb * size)) where
  -- In a well-formed heap with room behind its last block for the product, which does not wrap
  -- then, `calloc` gives out a block that is large enough for all the elements, and every byte of
  -- them is 0.
  pub calloc-zero :
      (j : ℕ)
      → j < nmemb * size
      → (g : Heap) × (q : ℕ) × (calloc (length frees) h nmemb size ≡ ok (g, q + header))
        × (nmemb * size ≤ (g.head q).size)
        × (g.byte (q + header + j) ≡ 0)
  unfolding calloc
  calloc-zero j lt =
      let (g, q, e, given, large, same) = alloc-Given v (nmemb * size) room in
      let whole : nmemb * size % word ≡ nmemb * size = omega arith in
      let g' : Heap = record g { byte = memset g.byte (q + header) 0 (nmemb * size) } in
      (g', q, rw (whole, e) refl, large, memset-inside (nmemb * size) g.byte (q + header) 0 j lt)
