-- ===== src/Gfx/Cells/Runs.antt =====
-- The regions of a row are the runs of changed cells.
use umka_os.Base.{
  ℕ, zero, suc, ◌+◌, ◌-◌, ◌*◌, ◌≤◌, ◌<◌, ◌≡◌, refl, sym, ◌∙◌, ap, inl, inr, Bool, true, false, not,
  ◌&&◌, List, [], ◌∷◌, arith, ◌==◌, ltb, leb, ltb→lt, not_ltb→le, Bool-cases, if◌then◌else◌,
  eq-cases,
}
use umka_os.Gfx.Cells.{cells_x, Hashes, Region, run_end, row_regions, swap_row}

-- How many regions a cell is in.
unfoldable pub covering : List Region → ℕ → ℕ
covering [] z = 0
covering ((start, n) ∷ regions) z =
    let rest = covering regions z in if leb start z && ltb z (start + n) then 1 + rest else rest

-- The run from `x` to `e`: everything in it is changed, and what follows, if anything, is not.
pub record IsRun (dirty : ℕ → Bool) (x e last : ℕ) : Type 0 where
  pub start : x ≤ e
  pub bound : e ≤ last
  pub inside : (z : ℕ) → x ≤ z → z < e → dirty z ≡ true
  pub stop : e < last → dirty e ≡ false

pub run_end-IsRun :
    (n : ℕ) (dirty : ℕ → Bool) (x last : ℕ) → x + n ≡ last → IsRun dirty x (run_end n dirty x) last
unfolding run_end
run_end-IsRun zero dirty x last e = record {
  start = omega arith;
  bound = omega arith;
  inside = λ z lo hi. absurd (omega arith);
  stop = λ h. absurd (omega arith);
}
run_end-IsRun (suc n) dirty x last e = elim (Bool-cases (dirty x)) [
  | inr clean ↦
      rw (run_end, clean)
        (record {
          start = omega arith;
          bound = omega arith;
          inside = λ z lo hi. absurd (omega arith);
          stop = λ h. clean;
        })
  | inl changed ↦
      let r = run_end-IsRun n dirty (x + 1) last (omega arith) in
      rw (run_end, changed)
        (record {
          start = omega (arith, r.start);
          bound = r.bound;
          inside = λ z lo hi. elim (eq-cases z x) [
            | inl same ↦ ap dirty same ∙ changed
            | inr ne ↦ r.inside z (omega arith) hi
          ];
          stop = r.stop;
        })
]

-- How many regions the cell `z` has to be in, from the cell `start` on.
abbrev due : (ℕ → Bool) → ℕ → ℕ → ℕ
due dirty start z = if leb start z && ltb z cells_x && dirty z then 1 else 0

due-skip :
    (dirty : ℕ → Bool) (start e z : ℕ)
    → IsRun dirty start e cells_x
    → start < cells_x
    → (if leb start z && ltb z e then 1 + due dirty (e + 1) z else due dirty (e + 1) z)
      ≡ due dirty start z
due-skip dirty start e z r h =
    let run = r.inside z in
    let stop = r.stop in
    let lo = r.start in
    let hi = r.bound in
    elim (eq-cases z e) [
      | inl q ↦ let same : dirty z ≡ dirty e = ap dirty q in ground (arith, run)
      | inr ne ↦ ground (arith, run)
    ]

due-behind : (dirty : ℕ → Bool) (start z : ℕ) → cells_x ≤ start → due dirty start z ≡ 0
due-behind dirty start z h = ground arith

-- The first region of a row, if it is not empty.
abbrev first_region : ℕ → ℕ → List Region → List Region
first_region start x rest = if start == x then rest else (start, x - start) ∷ rest

covering-first_region :
    (start x z : ℕ) (rest : List Region)
    → start ≤ x
    → covering (first_region start x rest) z
      ≡ (if leb start z && ltb z x then 1 + covering rest z else covering rest z)
unfolding covering
covering-first_region start x z rest h = elim (eq-cases start x) [
  | inl e ↦ ground arith
  | inr ne ↦ let whole : start + (x - start) ≡ x = omega arith in ground arith
]

row_regions-covering :
    (n : ℕ) (dirty : ℕ → Bool) (start z : ℕ)
    → cells_x ≤ start + n
    → covering (row_regions n dirty start) z ≡ due dirty start z
unfolding row_regions covering
row_regions-covering zero dirty start z enough = sym (due-behind dirty start z (omega arith))
row_regions-covering (suc n) dirty start z enough = elim (Bool-cases (ltb start cells_x)) [
  | inr e ↦ rw (row_regions, e) (sym (due-behind dirty start z (not_ltb→le start cells_x e)))
  | inl e ↦
      let h = ltb→lt start cells_x e in
      let x = run_end (cells_x - start) dirty start in
      let r = run_end-IsRun (cells_x - start) dirty start cells_x (omega arith) in
      let later = row_regions-covering n dirty (x + 1) z (omega (arith, r.start)) in
      rw (row_regions, e)
        (covering-first_region start x z (row_regions n dirty (x + 1)) r.start
          ∙ ap (λ k. if leb start z && ltb z x then 1 + k else k) later
          ∙ due-skip dirty start x z r h)
]

due-zero : (dirty : ℕ → Bool) (z : ℕ) → z < cells_x → due dirty 0 z ≡ (if dirty z then 1 else 0)
due-zero dirty z h = ground arith

not_swap : (b : Bool) → ◌≡◌ {A = ℕ} (if not b then 1 else 0) (if b then 0 else 1)
not_swap true = refl
not_swap false = refl

-- In every row of cells `gfxSwap` draws each cell whose hash has changed in exactly one region, and
-- no cell whose hash is the same; its loops end.
pub swap_row-covering :
    (hashes1 hashes2 : Hashes) (y z : ℕ)
    → z < cells_x
    → covering (swap_row hashes1 hashes2 y) z
      ≡ (if hashes1 (z + y * cells_x) == hashes2 (z + y * cells_x) then 0 else 1)
unfolding swap_row
swap_row-covering hashes1 hashes2 y z h =
    row_regions-covering cells_x (λ x. not (hashes1 (x + y * cells_x) == hashes2 (x + y * cells_x)))
      0 z (omega arith)
    ∙ due-zero (λ x. not (hashes1 (x + y * cells_x) == hashes2 (x + y * cells_x))) z h
    ∙ not_swap (hashes1 (z + y * cells_x) == hashes2 (z + y * cells_x))
