-- ===== src/Gfx/Cells/Marks.antt =====
-- What a command does to the hashes: the cells of its span change, each once, and no other.
use umka_os.Base.{
  ℕ, zero, suc, ◌+◌, ◌-◌, ◌*◌, ◌/◌, ◌^◌, ◌≤◌, ◌<◌, ◌≡◌, ◌≢◌, refl, ◌∙◌, ap, ◌⊎◌, inl, inr, ◌&&◌,
  List, arith, ltb, leb, if◌then◌else◌, eq-cases, update, update_self, update_other, ok,
}
use umka_os.Base.Int.{ℤ, pos, negsuc, ◌+ℤ◌, ◌≤ℤ◌, +ℤ_parts}
use umka_os.Gfx.Cells.{
  cells_x, cells_y, Hashes, clamp, cell_of, cell_span, le_bytes, mark, mark_column, mark_columns,
  mark_command,
}
use umka_os.Gfx.Hash.{fnv_32_init, fnv32buf}
use umka_os.Gfx.Rect.{Rect}
use umka_os.Gfx.Rect.Meet.{Small, IsSmall, Inside, checked-Within, +ℤ-Within}

-- The hash of a cell after it has been marked.
abbrev pub hash_on : ℕ → ℕ → ℕ
hash_on cmdhash old = fnv32buf (le_bytes cmdhash) old

-- The cell `a`, `b` after a rectangle of cells has been marked.
abbrev pub marked : Hashes → ℕ → ℕ → ℕ → ℕ → ℕ → ℕ → ℕ → ℕ
marked hashes cmdhash x n y rows a b =
    if leb x a && ltb a (x + n) && (leb y b && ltb b (y + rows))
    then hash_on cmdhash (hashes (a + b * cells_x))
    else hashes (a + b * cells_x)

clamp-lt : (limit : ℕ) (z : ℤ) → 0 < limit → clamp limit z < limit
unfolding clamp
clamp-lt limit (pos n) h = ground arith
clamp-lt limit (negsuc n) h = omega arith

mark-ok :
    (hashes : Hashes) (cmdhash x y : ℕ)
    → x < cells_x
    → y < cells_y
    → mark hashes cmdhash x y
      ≡ ok (update hashes (x + y * cells_x) (hash_on cmdhash (hashes (x + y * cells_x))))
unfolding mark
mark-ok hashes cmdhash x y hx hy = ground arith

module _ (cmdhash a b : ℕ) (ha : a < cells_x) where
  marked-top :
      (hashes : Hashes) (x y n : ℕ)
      → x < cells_x
      → marked
          (update hashes (x + y * cells_x) (hash_on cmdhash (hashes (x + y * cells_x))))
          cmdhash
          x
          1
          (y + 1)
          n
          a
          b
        ≡ marked hashes cmdhash x 1 y (suc n) a b
  marked-top hashes x y n hx =
      let i = x + y * cells_x in
      let new = hash_on cmdhash (hashes i) in
      elim (eq-cases (a + b * cells_x) i) [
        | inl e ↦
            let top : update hashes i new (a + b * cells_x) ≡ new =
              ap (update hashes i new) e ∙ update_self hashes i new in
            let now : hash_on cmdhash (hashes (a + b * cells_x)) ≡ new =
              ap (λ k. hash_on cmdhash (hashes k)) e in
            let same_x : a ≡ x = omega arith in let same_y : b ≡ y = omega arith in ground arith
        | inr ne ↦
            let other : update hashes i new (a + b * cells_x) ≡ hashes (a + b * cells_x) =
              update_other hashes i new (a + b * cells_x) ne in
            let apart : (a ≢ x) ⊎ (b ≢ y) = elim (eq-cases a x) [
              | inl same ↦ inr (λ e. ne (omega arith))
              | inr e ↦ inl e
            ] in
            ground arith
      ]

  mark_column-marked :
      (n : ℕ) (hashes : Hashes) (x y : ℕ)
      → x < cells_x
      → y + n ≤ cells_y
      → (hashes' : Hashes) × (mark_column n hashes cmdhash x y ≡ ok hashes')
        × (hashes' (a + b * cells_x) ≡ marked hashes cmdhash x 1 y n a b)
  unfolding mark_column
  mark_column-marked zero hashes x y hx hy = (hashes, refl, ground arith)
  mark_column-marked (suc n) hashes x y hx hy =
      let new = hash_on cmdhash (hashes (x + y * cells_x)) in
      let (hashes', e, m) =
        mark_column-marked n (update hashes (x + y * cells_x) new) x (y + 1) hx (omega arith) in
      (hashes', rw (mark-ok hashes cmdhash x y hx (omega arith)) e, m ∙ marked-top hashes x y n hx)

  marked-left :
      (hashes hashes' : Hashes) (x y n rows : ℕ)
      → hashes' (a + b * cells_x) ≡ marked hashes cmdhash x 1 y rows a b
      → marked hashes' cmdhash (x + 1) n y rows a b ≡ marked hashes cmdhash x (suc n) y rows a b
  marked-left hashes hashes' x y n rows e = let again = ap (hash_on cmdhash) e in ground arith

  mark_columns-marked :
      (n rows : ℕ) (hashes : Hashes) (x y : ℕ)
      → x + n ≤ cells_x
      → y + rows ≤ cells_y
      → (hashes' : Hashes) × (mark_columns n rows hashes cmdhash x y ≡ ok hashes')
        × (hashes' (a + b * cells_x) ≡ marked hashes cmdhash x n y rows a b)
  unfolding mark_columns
  mark_columns-marked zero rows hashes x y hx hy = (hashes, refl, ground arith)
  mark_columns-marked (suc n) rows hashes x y hx hy =
      let (hashes1, e, m) = mark_column-marked rows hashes x y (omega arith) hy in
      let (hashes2, f, k) = mark_columns-marked n rows hashes1 (x + 1) y (omega arith) hy in
      (hashes2, rw e f, k ∙ marked-left hashes hashes1 x y n rows m)

abbrev first_cell : ℕ → ℤ → ℕ
first_cell limit x = clamp limit (cell_of x)

abbrev last_cell : ℕ → ℤ → ℤ → ℕ
last_cell limit x w = clamp limit (cell_of (x +ℤ w))

cell_span-ok :
    (limit : ℕ) (x w : ℤ)
    → Small x
    → Small w
    → cell_span limit x w ≡ ok (first_cell limit x, last_cell limit x w)
unfolding cell_span
cell_span-ok limit x w sx sw =
    rw (checked-Within (x +ℤ w) (2 ^ 30) (omega arith) (+ℤ-Within x w (2 ^ 29) (2 ^ 29) sx sw)) refl

first_cell-le : (limit p : ℕ) (x : ℤ) → x ≤ℤ pos p → p / 16 < limit → first_cell limit x ≤ p / 16
unfolding clamp cell_of
first_cell-le limit p (pos n) h g = ground arith
first_cell-le limit p (negsuc n) h g = ground arith

le-last_cell :
    (limit p : ℕ) (r : ℤ) → pos p +ℤ pos 1 ≤ℤ r → p / 16 < limit → p / 16 ≤ clamp limit (cell_of r)
unfolding clamp cell_of ◌+ℤ◌
le-last_cell limit p (pos n) h g = ground arith
le-last_cell limit p (negsuc n) h g = absurd (omega (arith, +ℤ_parts (pos p) (pos 1)))

-- For a command whose numbers are small, the marking writes inside the table, and changes the hash
-- of each cell between the first and the last one of its span, once, and no other hash.
pub mark_command-marked :
    (hashes : Hashes) (bytes : List ℕ) (area : Rect) (a b : ℕ)
    → IsSmall area
    → a < cells_x
    → (hashes' : Hashes) × (mark_command hashes bytes area ≡ ok hashes')
      × (hashes' (a + b * cells_x)
          ≡ marked hashes
              (fnv32buf bytes fnv_32_init)
              (first_cell cells_x area.x)
              (last_cell cells_x area.x area.w + 1 - first_cell cells_x area.x)
              (first_cell cells_y area.y)
              (last_cell cells_y area.y area.h + 1 - first_cell cells_y area.y)
              a
              b)
unfolding mark_command
mark_command-marked hashes bytes area a b small ha =
    let x1 = clamp-lt cells_x (cell_of area.x) (omega arith) in
    let x2 = clamp-lt cells_x (cell_of (area.x +ℤ area.w)) (omega arith) in
    let y1 = clamp-lt cells_y (cell_of area.y) (omega arith) in
    let y2 = clamp-lt cells_y (cell_of (area.y +ℤ area.h)) (omega arith) in
    let (hashes', e, m) =
      mark_columns-marked (fnv32buf bytes fnv_32_init) a b ha
        (last_cell cells_x area.x area.w + 1 - first_cell cells_x area.x)
        (last_cell cells_y area.y area.h + 1 - first_cell cells_y area.y) hashes
        (first_cell cells_x area.x) (first_cell cells_y area.y) (omega arith) (omega arith) in
    (
      hashes',
      rw
          (
            cell_span-ok cells_x area.x area.w small.x small.w,
            cell_span-ok cells_y area.y area.h small.y small.h,
          )
          e,
      m,
    )

-- A pixel of the 1024 by 768 screen that lies in the area of a command, whose numbers are small, is
-- in a cell that the command marks.
pub mark_command-Inside :
    (hashes : Hashes) (bytes : List ℕ) (area : Rect) (px py : ℕ)
    → IsSmall area
    → px < 1024
    → py < 768
    → Inside area (pos px) (pos py)
    → (hashes' : Hashes) × (mark_command hashes bytes area ≡ ok hashes')
      × (hashes' (px / 16 + py / 16 * cells_x)
          ≡ hash_on (fnv32buf bytes fnv_32_init) (hashes (px / 16 + py / 16 * cells_x)))
mark_command-Inside hashes bytes area px py small hx hy ((lx, ux), (ly, uy)) =
    let (hashes', e, m) =
      mark_command-marked hashes bytes area (px / 16) (py / 16) small (omega arith) in
    let x1 = first_cell-le cells_x px area.x lx (omega arith) in
    let x2 = le-last_cell cells_x px (area.x +ℤ area.w) ux (omega arith) in
    let y1 = first_cell-le cells_y py area.y ly (omega arith) in
    let y2 = le-last_cell cells_y py (area.y +ℤ area.h) uy (omega arith) in
    (hashes', e, m ∙ ground arith)
