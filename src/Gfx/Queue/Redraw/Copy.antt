-- ===== src/Gfx/Queue/Redraw/Copy.antt =====
-- The rows of the background are copied into the back buffer.
use umka_os.Base.{
  ℕ, zero, suc, ◌+◌, ◌*◌, ◌≤◌, ◌<◌, ◌≡◌, refl, inl, inr, arith, ◌^◌, false, lt→ltb, leb, update,
  Bool-cases, Res, ok,
}
use umka_os.Base.Int.{ℤ, pos, negsuc, pos_part, ◌+ℤ◌, ◌≤ℤ◌, ltb_ℤ, +ℤ_parts, pos-+ℤ}
use umka_os.Gfx.Draw.{Screen, Buffer}
use umka_os.Gfx.Draw.Pixel.{IsScreen, plot-ok}
use umka_os.Gfx.Queue.{Image, read_pixel, row_size, copy_row, texture_row, copy_rows}

-- A run that gives a result.
abbrev pub Runs : {A : Type 0} → Res A → Type 0
Runs {A} r = (a : A) × (r ≡ ok a)

pub read_pixel-ok :
    (image : Image) (i : ℕ)
    → i < image.width * image.height
    → read_pixel image (pos i) ≡ ok (image.pixels i)
unfolding read_pixel
read_pixel-ok image i h = rw (read_pixel, lt→ltb i (image.width * image.height) h) refl

-- The pixel (x, y) is in the image.
pub index-lt : (x y w h : ℕ) → x < w → y < h → x + y * w < w * h
index-lt x y w h hx hy = grind arith

module _ (s : Screen) (background : Image) (v : IsScreen s) where
  copy_row-Runs :
      (n : ℕ) (buf : Buffer) (x y j from : ℕ)
      → x + j + n ≤ s.width
      → y < s.height
      → from + j + n ≤ background.width * background.height
      → Runs (copy_row n s background buf (pos x) (pos y) j from)
  unfolding copy_row
  copy_row-Runs zero buf x y j from hx hy hr = (buf, refl)
  copy_row-Runs (suc n) buf x y j from hx hy hr =
      let texel = background.pixels (from + j) in
      let (buf', e) =
        copy_row-Runs n (update buf (x + j + y * s.width) texel) x y (j + 1) from (omega arith) hy
          (omega arith) in
      (
        buf',
        rw
            (
              read_pixel-ok background (from + j) (omega arith),
              pos-+ℤ x j,
              plot-ok s buf (x + j) y texel v (omega arith) hy,
            )
            e,
      )

  row-le :
      (offset row n : ℕ)
      → offset + n ≤ background.width
      → row < background.height
      → offset + row * background.width + 0 + n ≤ background.width * background.height
  row-le offset row n h g = grind arith

  copy_rows-Runs :
      (rows n : ℕ) (buf : Buffer) (x y : ℕ) (offset up : ℤ) (i : ℕ)
      → x + n ≤ s.width
      → y + i + rows ≤ s.height
      → pos_part offset + n ≤ background.width
      → Runs (copy_rows rows (pos n) s background buf (pos x) (pos y) offset up i)
  unfolding copy_rows texture_row row_size
  copy_rows-Runs zero n buf x y offset up i hx hy hr = (buf, refl)
  copy_rows-Runs (suc rows) n buf x y offset up i hx hy hr =
      let row = pos_part (pos i +ℤ up) in
      let skip = copy_rows-Runs rows n buf x y offset up (i + 1) hx (omega arith) hr in
      let size = lt→ltb n (2 ^ 29) (omega (arith, v.width)) in
      elim (Bool-cases (ltb_ℤ (pos i +ℤ up) (pos 0))) [
        | inl above ↦ (skip.0, rw (copy_rows, above) skip.1)
        | inr below ↦ elim (Bool-cases (leb background.height row)) [
          | inl past ↦ (skip.0, rw (copy_rows, below, past) skip.1)
          | inr here ↦
              let (buf1, e) =
                copy_row-Runs n buf x (y + i) 0 (texture_row background offset row) (omega arith)
                  (omega arith)
                  (row-le (pos_part offset) row n hr (leb-lt background.height row here)) in
              let (buf2, f) =
                copy_rows-Runs rows n buf1 x y offset up (i + 1) hx (omega arith) hr in
              (buf2, rw (copy_rows, below, here, row_size, size, pos-+ℤ y i, e) f)
        ]
      ]
    where
      leb-lt : (h r : ℕ) → leb h r ≡ false → r < h
      leb-lt h r e = ground arith

  pub copy-Runs :
      (buf : Buffer) (x y w h offset up : ℤ)
      → pos 0 ≤ℤ x
      → pos 0 ≤ℤ y
      → pos 0 ≤ℤ w
      → x +ℤ w ≤ℤ pos s.width
      → y +ℤ h ≤ℤ pos s.height
      → pos_part offset + pos_part w ≤ background.width
      → Runs (copy_rows (pos_part h) w s background buf x y offset up 0)
  unfolding copy_rows
  copy-Runs buf (negsuc x) y w h offset up px py pw wide high hr = absurd (omega arith)
  copy-Runs buf (pos x) (negsuc y) w h offset up px py pw wide high hr = absurd (omega arith)
  copy-Runs buf (pos x) (pos y) (negsuc n) h offset up px py pw wide high hr = absurd (omega arith)
  copy-Runs buf (pos x) (pos y) (pos n) (negsuc m) offset up px py pw wide high hr = (buf, refl)
  copy-Runs buf (pos x) (pos y) (pos n) (pos m) offset up px py pw wide high hr =
      copy_rows-Runs m n buf x y offset up 0 (omega (arith, +ℤ_parts (pos x) (pos n)))
        (omega (arith, +ℤ_parts (pos y) (pos m))) hr
