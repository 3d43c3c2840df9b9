-- ===== src/Alloc/Take.antt =====
-- First fit: the search of `allocatorAlloc` and the removal from the free list.
use umka_os.Base.{
  ℕ, zero, suc, ◌≤◌, ◌<◌, ◌≡◌, ◌≢◌, refl, sym, ◌∙◌, ◌⊎◌, inl, inr, ap, List, [], ◌∷◌, ◌++◌, arith,
  ltb, Bool-cases, update_self, update_other, length, ltb→lt, not_ltb→le,
}
use umka_os.Alloc.{Heads, Search, fit, none_fits, search, set_next}
use umka_os.Alloc.Blocks.{Lacks, Distinct, In, AllIn, Free, Lacks-set_next}

abbrev pub AllSmall : Heads → ℕ → List ℕ → Type 0
AllSmall head size [] = Unit
AllSmall head size (x ∷ xs) = ((head x).size < size) × AllSmall head size xs

-- The last of the blocks passed over, or what came before them.
abbrev pub last_or : ℕ → List ℕ → ℕ
last_or d [] = d
last_or d (x ∷ xs) = last_or x xs

-- The first free block that is large enough, with those before and behind it.
pub record FirstFit (head : Heads) (size : ℕ) (prev : ℕ) (frees : List ℕ) (r : Search)
    : Type 0 where
  pub before : List ℕ
  pub node : ℕ
  pub behind : List ℕ
  pub split : frees ≡ before ++ node ∷ behind
  pub result : r ≡ fit (last_or prev before) node
  pub small : AllSmall head size before
  pub large : size ≤ (head node).size

-- The search ends: with the first fit, or with none if every free block is too small.
pub search-FirstFit :
    (k : ℕ) (head : Heads) (size prev node : ℕ) (rest : List ℕ)
    → Free head node (node ∷ rest)
    → length rest < k
    → ((search k head size prev node ≡ none_fits) × AllSmall head size (node ∷ rest))
      ⊎ FirstFit head size prev (node ∷ rest) (search k head size prev node)
unfolding search
search-FirstFit zero head size prev node rest f enough = absurd (omega arith)
search-FirstFit (suc k) head size prev node [] (_, pos, z) enough =
    elim (Bool-cases (ltb (head node).size size)) [
      | inl s ↦ inl (rw (search, s, z) refl, (ltb→lt _ _ s, tt))
      | inr s ↦ inr (record {
        before = [];
        node = node;
        behind = [];
        split = refl;
        result = rw (search, s) refl;
        small = tt;
        large = not_ltb→le _ _ s;
      })
    ]
search-FirstFit (suc k) head size prev node (y ∷ rest) (_, pos, (e, pos_y, f)) enough =
    elim (Bool-cases (ltb (head node).size size)) [
      | inr s ↦ inr (record {
        before = [];
        node = node;
        behind = y ∷ rest;
        split = refl;
        result = rw (search, s) refl;
        small = tt;
        large = not_ltb→le _ _ s;
      })
      | inl s ↦
          let onward : search (suc k) head size prev node ≡ search k head size node y =
            ground arith in
          elim (search-FirstFit k head size node y rest (refl, pos_y, f) (omega arith)) [
            | inl (none_left, small) ↦ inl (onward ∙ none_left, (ltb→lt _ _ s, small))
            | inr r ↦ inr (record {
              before = node ∷ r.before;
              node = r.node;
              behind = r.behind;
              split = ap (λ l. node ∷ l) r.split;
              result = onward ∙ r.result;
              small = (ltb→lt _ _ s, r.small);
              large = r.large;
            })
          ]
    ]

pub Lacks-remove :
    (x n : ℕ) (before behind : List ℕ)
    → Lacks x (before ++ n ∷ behind)
    → (n ≢ x) × Lacks x (before ++ behind)
Lacks-remove x n [] behind (h, hs) = (h, hs)
Lacks-remove x n (y ∷ before) behind (h, hs) =
    let (a, b) = Lacks-remove x n before behind hs in (a, (h, b))

pub Distinct-remove :
    (n : ℕ) (before behind : List ℕ)
    → Distinct (before ++ n ∷ behind)
    → Distinct (before ++ behind) × Lacks n (before ++ behind)
Distinct-remove n [] behind (h, hs) = (hs, h)
Distinct-remove n (y ∷ before) behind (h, hs) =
    let (a, b) = Distinct-remove n before behind hs in
    let (ne, c) = Lacks-remove y n before behind h in ((c, a), (λ e. ne (sym e), b))

pub AllIn-remove :
    (n : ℕ) (before behind ys : List ℕ)
    → AllIn (before ++ n ∷ behind) ys
    → In n ys × AllIn (before ++ behind) ys
AllIn-remove n [] behind ys (h, hs) = (h, hs)
AllIn-remove n (y ∷ before) behind ys (h, hs) =
    let (a, b) = AllIn-remove n before behind ys hs in (a, (h, b))

last_or-ne : (x y : ℕ) (before rest : List ℕ) → Lacks x (y ∷ before ++ rest) → last_or y before ≢ x
last_or-ne x y [] rest (h, _) = h
last_or-ne x y (z ∷ before) rest (_, hs) = last_or-ne x z before rest hs

-- With the `next` of the block before it redirected, the node is off the list.
pub Free-unlink :
    (head : Heads) (p x n : ℕ) (before behind : List ℕ)
    → Free head p (x ∷ before ++ n ∷ behind)
    → Distinct (x ∷ before ++ n ∷ behind)
    → Free (set_next head (last_or x before) (head n).next) p (x ∷ before ++ behind)
Free-unlink head p x n [] behind (e, pos, (en, _, f)) ((_, lacks), _) = (
  e,
  pos,
  rw (update_self head x (record (head x) { next = (head n).next }))
      (Lacks-set_next head x _ (head n).next behind lacks f),
)
Free-unlink head p x n (y ∷ before) behind (e, pos, f) (lacks, dist) = (
  e,
  pos,
  rw
      (update_other head (last_or y before)
        (record (head (last_or y before)) { next = (head n).next }) x
        (λ z. last_or-ne x y before (n ∷ behind) lacks (sym z)))
      (Free-unlink head (head x).next y n before behind f dist),
)

pub last_or-pos :
    (head : Heads) (p x : ℕ) (before rest : List ℕ)
    → Free head p (x ∷ before ++ rest)
    → last_or x before ≢ 0
last_or-pos head p x [] rest (e, pos, f) = pos
last_or-pos head p x (y ∷ before) rest (e, pos, f) = last_or-pos head (head x).next y before rest f
