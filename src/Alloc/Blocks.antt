-- ===== src/Alloc/Blocks.antt =====
-- The blocks of the heap and its free list.
use umka_os.Base.{
  ℕ, ◌+◌, ◌≤◌, ◌<◌, ◌≡◌, ◌≢◌, refl, sym, ◌∙◌, ◌⊎◌, inl, inr, ap, eq-cases, List, [], ◌∷◌, ◌++◌,
  arith, update, update_self, update_other,
}
use umka_os.Alloc.{MemNode, Heads, Heap, header, magic, set_next}

-- No member of the list is `x`.
abbrev pub Lacks : ℕ → List ℕ → Type 0
Lacks x [] = Unit
Lacks x (y ∷ ys) = (y ≢ x) × Lacks x ys

abbrev pub Distinct : List ℕ → Type 0
Distinct [] = Unit
Distinct (x ∷ xs) = Lacks x xs × Distinct xs

abbrev pub In : ℕ → List ℕ → Type 0
In x [] = ⊥
In x (y ∷ ys) = (x ≡ y) ⊎ In x ys

abbrev pub AllIn : List ℕ → List ℕ → Type 0
AllIn [] ys = Unit
AllIn (x ∷ xs) ys = In x ys × AllIn xs ys

-- The blocks behind the block `p`, each right behind the one before, up to `last`.
abbrev pub Chain : Heads → ℕ → List ℕ → ℕ → Type 0
Chain head p [] last = p ≡ last
Chain head p (q ∷ qs) last =
    (q ≡ p + (head p).size + header) × ((head q).check ≡ magic) × Chain head q qs last

-- The list of free blocks from `p`, by `next`.
abbrev pub Free : Heads → ℕ → List ℕ → Type 0
Free head p [] = p ≡ 0
Free head p (x ∷ xs) = (p ≡ x) × (x ≢ 0) × Free head (head x).next xs

-- What the allocator keeps: `blocks` from `start` on, of which `frees` are on the free list.
pub record IsHeap (h : Heap) (start : ℕ) (blocks frees : List ℕ) : Type 0 where
  pub start_pos : 0 < start
  pub chain : Chain h.head start blocks h.tail
  pub free_list : Free h.head h.free frees
  pub distinct : Distinct frees
  pub members : AllIn frees blocks

pub Lacks-set_next :
    (head : Heads) (p q x : ℕ) (xs : List ℕ)
    → Lacks p xs
    → Free head x xs
    → Free (set_next head p q) x xs
Lacks-set_next head p q x [] h f = f
Lacks-set_next head p q x (y ∷ ys) (ne, h) (e, pos, f) = (
  e,
  pos,
  rw (update_other head p (record (head p) { next = q }) y ne)
      (Lacks-set_next head p q (head y).next ys h f),
)

-- A new `next` changes no size and no check.
pub size-set_next : (head : Heads) (p q x : ℕ) → (set_next head p q x).size ≡ (head x).size
size-set_next head p q x = elim (eq-cases x p) [
  | inl h ↦ rw (h, update_self head p (record (head p) { next = q })) refl
  | inr h ↦ rw (update_other head p (record (head p) { next = q }) x h) refl
]

pub check-set_next : (head : Heads) (p q x : ℕ) → (set_next head p q x).check ≡ (head x).check
check-set_next head p q x = elim (eq-cases x p) [
  | inl h ↦ rw (h, update_self head p (record (head p) { next = q })) refl
  | inr h ↦ rw (update_other head p (record (head p) { next = q }) x h) refl
]

pub Chain-set_next :
    (head : Heads) (p q x last : ℕ) (xs : List ℕ)
    → Chain head x xs last
    → Chain (set_next head p q) x xs last
Chain-set_next head p q x last [] e = e
Chain-set_next head p q x last (y ∷ ys) (e, c, rest) = (
  rw (size-set_next head p q x) e,
  check-set_next head p q y ∙ c,
  Chain-set_next head p q y last ys rest,
)

pub Chain-le : (head : Heads) (x last : ℕ) (xs : List ℕ) → Chain head x xs last → x ≤ last
Chain-le head x last [] e = omega arith
Chain-le head x last (y ∷ ys) (e, c, rest) = omega (arith, Chain-le head y last ys rest)

pub Chain-after :
    (head : Heads) (x last b : ℕ) (xs : List ℕ)
    → Chain head x xs last
    → In b xs
    → x + header + (head x).size ≤ b
Chain-after head x last b [] e i = elim i [ ]
Chain-after head x last b (y ∷ ys) (e, c, rest) (inl i) = omega arith
Chain-after head x last b (y ∷ ys) (e, c, rest) (inr i) =
    omega (arith, Chain-after head y last b ys rest i)

pub Chain-check :
    (head : Heads) (x last b : ℕ) (xs : List ℕ)
    → Chain head x xs last
    → In b xs
    → ((head b).check ≡ magic) × (x < b) × (b ≤ last)
Chain-check head x last b [] e i = elim i [ ]
Chain-check head x last b (y ∷ ys) (e, c, rest) (inl i) =
    rw i (c, omega arith, Chain-le head y last ys rest)
Chain-check head x last b (y ∷ ys) (e, c, rest) (inr i) =
    let (m, lo, hi) = Chain-check head y last b ys rest i in (m, omega arith, hi)

-- A header written behind the last block changes no block.
pub Chain-update :
    (head : Heads) (n : ℕ) (m : MemNode) (x last : ℕ) (xs : List ℕ)
    → last < n
    → Chain head x xs last
    → Chain (update head n m) x xs last
Chain-update head n m x last [] h e = e
Chain-update head n m x last (y ∷ ys) h (e, c, rest) =
    let (x_lt, y_lt) = bounds in
    (
      rw (update_other head n m x (λ z. omega arith)) e,
      rw (update_other head n m y (λ z. omega arith)) c,
      Chain-update head n m y last ys h rest,
    )
  where
    bounds : (x < n) × (y < n)
    bounds = let b = Chain-le head y last ys rest in (omega arith, omega arith)

pub Chain-append :
    (head : Heads) (x last : ℕ) (xs : List ℕ) (n : ℕ)
    → Chain head x xs last
    → n ≡ last + (head last).size + header
    → (head n).check ≡ magic
    → Chain head x (xs ++ n ∷ []) n
Chain-append head x last [] n e f c = (f ∙ ap (λ k. k + (head k).size + header) (sym e), c, refl)
Chain-append head x last (y ∷ ys) n (e, c', rest) f c =
    (e, c', Chain-append head y last ys n rest f c)

-- Two blocks of a chain do not overlap: each, header and data, ends before the later one begins.
pub Chain-apart :
    (head : Heads) (x last a b : ℕ) (xs : List ℕ)
    → Chain head x xs last
    → In a xs
    → In b xs
    → a < b
    → a + header + (head a).size ≤ b
Chain-apart head x last a b [] e i j lt = elim i [ ]
Chain-apart head x last a b (y ∷ ys) (e, c, rest) (inl i) (inl j) lt = absurd (omega arith)
Chain-apart head x last a b (y ∷ ys) (e, c, rest) (inl i) (inr j) lt =
    rw i (Chain-after head y last b ys rest j)
Chain-apart head x last a b (y ∷ ys) (e, c, rest) (inr i) (inl j) lt =
    absurd (omega (arith, Chain-after head y last a ys rest i))
Chain-apart head x last a b (y ∷ ys) (e, c, rest) (inr i) (inr j) lt =
    Chain-apart head y last a b ys rest i j lt
