-- ===== src/Gfx/Cells.antt =====
-- The cells of `gfxSwap` in src/sys/gfx.c: which ones a command marks, and which are drawn again.
pub mod Marks
pub mod Runs
use umka_os.Base.{
  ℕ, zero, suc, ◌+◌, ◌-◌, ◌*◌, ◌/◌, ◌%◌, ◌^◌, Bool, true, false, not, List, [], ◌∷◌, ◌==◌, ltb, leb,
  if◌then◌else◌, update, Res, ok, fault, ◌>>=◌,
}
use umka_os.Base.Int.{checked, ℤ, pos, negsuc, ◌+ℤ◌, sub_ℕ}
use umka_os.Gfx.Rect.{Rect}
use umka_os.Gfx.Hash.{fnv_32_init, fnv32buf}

abbrev pub cell_size : ℕ
cell_size = 16

abbrev pub cells_x : ℕ
cells_x = 64

abbrev pub cells_y : ℕ
cells_y = 48

-- A table with an entry for each cell.
abbrev pub Hashes : Type 0
Hashes = ℕ → ℕ

-- Division of an `int` by `CELL_SIZE`, which rounds towards 0.
unfoldable pub cell_of : ℤ → ℤ
cell_of (pos n) = pos (n / cell_size)
cell_of (negsuc n) = sub_ℕ 0 (suc n / cell_size)

-- The two tests that keep a cell number in its range.
unfoldable pub clamp : ℕ → ℤ → ℕ
clamp limit (pos n) = if leb limit n then limit - 1 else n
clamp limit (negsuc n) = 0

-- The first and the last cell of a command on one axis.
unfoldable pub cell_span : ℕ → ℤ → ℤ → Res (ℕ × ℕ)
cell_span limit x w =
    checked (x +ℤ w) >>= λ r. ok (clamp limit (cell_of x), clamp limit (cell_of r))

-- The bytes of a `uint32_t`.
unfoldable pub le_bytes : ℕ → List ℕ
le_bytes n = n % 256 ∷ n / 256 % 256 ∷ n / 2 ^ 16 % 256 ∷ n / 2 ^ 24 % 256 ∷ []

-- The assignment to `hashes1[x + y * CELLS_X]`.
unfoldable pub mark : Hashes → ℕ → ℕ → ℕ → Res Hashes
mark hashes cmdhash x y =
    let i = x + y * cells_x in
    if ltb i (cells_x * cells_y)
    then ok (update hashes i (fnv32buf (le_bytes cmdhash) (hashes i)))
    else fault

-- `for (int y = y1; y <= y2; y++)`, with the rounds that are left.
unfoldable pub mark_column : ℕ → Hashes → ℕ → ℕ → ℕ → Res Hashes
mark_column zero hashes cmdhash x y = ok hashes
mark_column (suc n) hashes cmdhash x y =
    mark hashes cmdhash x y >>= λ hashes'. mark_column n hashes' cmdhash x (y + 1)

-- `for (int x = x1; x <= x2; x++)`
unfoldable pub mark_columns : ℕ → ℕ → Hashes → ℕ → ℕ → ℕ → Res Hashes
mark_columns zero rows hashes cmdhash x y = ok hashes
mark_columns (suc n) rows hashes cmdhash x y =
    mark_column rows hashes cmdhash x y >>= λ hashes'. mark_columns n rows hashes' cmdhash (x + 1) y

-- The round of the first loop of `gfxSwap` for a command, given the bytes that the command has in
-- memory.
unfoldable pub mark_command : Hashes → List ℕ → Rect → Res Hashes
mark_command hashes bytes area = cell_span cells_x area.x area.w >>= λ (x1, x2).
    cell_span cells_y area.y area.h >>= λ (y1, y2).
    mark_columns (x2 + 1 - x1) (y2 + 1 - y1) hashes (fnv32buf bytes fnv_32_init) x1 y1

-- `while (x < CELLS_X && hashes1[…] != hashes2[…]) x++`, with the cells that are left.
unfoldable pub run_end : ℕ → (ℕ → Bool) → ℕ → ℕ
run_end zero dirty x = x
run_end (suc n) dirty x = elim (dirty x) [ true ↦ run_end n dirty (x + 1) | false ↦ x ]

-- A region in a row of cells: the first cell and how many there are.
abbrev pub Region : Type 0
Region = ℕ × ℕ

-- The loop over a row: the regions that `gfxRedrawRegion` is called for.
unfoldable pub row_regions : ℕ → (ℕ → Bool) → ℕ → List Region
row_regions zero dirty start = []
row_regions (suc n) dirty start = elim (ltb start cells_x) [
  | false ↦ []
  | true ↦
      let x = run_end (cells_x - start) dirty start in
      let rest = row_regions n dirty (x + 1) in
      if start == x then rest else (start, x - start) ∷ rest
]

-- The row `y` of `gfxSwap`.
unfoldable pub swap_row : Hashes → Hashes → ℕ → List Region
swap_row hashes1 hashes2 y =
    row_regions cells_x (λ x. not (hashes1 (x + y * cells_x) == hashes2 (x + y * cells_x))) 0
