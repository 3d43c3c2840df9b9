-- ===== src/Gfx/Draw.antt =====
-- Drawing into the back buffer, from src/sys/gfx.c: pixels, rectangles and characters.
pub mod Pixel
pub mod Fill
use Prim.Native.Nat.{bit_and}
use umka_os.Base.{
  ℕ, zero, suc, ◌+◌, ◌*◌, ◌^◌, Bool, true, false, ◌==◌, ltb, if◌then◌else◌, update, Res, ok, fault,
  ◌>>=◌,
}
use umka_os.Base.Int.{checked, ℤ, pos, negsuc, pos_part, ◌+ℤ◌, ◌*ℤ◌, ltb_ℤ}
use umka_os.Gfx.Rect.{Rect, rect_intersect}

-- The size of the screen in `vesa_mode_info_struct`.
pub record Screen : Type 0 where
  pub width : ℕ
  pub height : ℕ

-- `backbuffer[0 .. width * height)`
abbrev pub Buffer : Type 0
Buffer = ℕ → ℕ

-- A write to the back buffer at an `int` index.
unfoldable pub poke : Screen → Buffer → ℤ → ℕ → Res Buffer
poke s buf (pos i) color = if ltb i (s.width * s.height) then ok (update buf i color) else fault
poke s buf (negsuc i) color = fault

-- `backbuffer[x + y * vesa_mode_info_struct.width] = color`
unfoldable pub plot : Screen → Buffer → ℤ → ℤ → ℕ → Res Buffer
plot s buf x y color =
    checked (y *ℤ pos s.width) >>= λ row. checked (x +ℤ row) >>= λ i. poke s buf i color

-- Whether the four tests of `gfxSetPixel` let the pixel through; the clip is `cx`, `cy`, `cw`, `ch`.
unfoldable pub lets : Rect → ℤ → ℤ → Res Bool
lets clip x y =
    if ltb_ℤ x clip.x
    then ok false
    else if ltb_ℤ y clip.y
    then ok false
    else (checked (clip.x +ℤ clip.w) >>= λ r.
        if ltb_ℤ x r then (checked (clip.y +ℤ clip.h) >>= λ b. ok (ltb_ℤ y b)) else ok false)

-- `gfxSetPixel`
unfoldable pub set_pixel : Screen → Rect → Buffer → ℤ → ℤ → ℕ → Res Buffer
set_pixel s clip buf x y color =
    lets clip x y >>= λ inside. if inside then plot s buf x y color else ok buf

-- The inner loop of `gfxDoDrawRect`, with the rounds that are left.
unfoldable pub fill_row : ℕ → Screen → Buffer → ℤ → ℤ → ℕ → ℕ → Res Buffer
fill_row zero s buf x y j color = ok buf
fill_row (suc n) s buf x y j color =
    plot s buf (x +ℤ pos j) y color >>= λ buf'. fill_row n s buf' x y (j + 1) color

-- Its outer loop.
unfoldable pub fill_rows : ℕ → ℕ → Screen → Buffer → ℤ → ℤ → ℕ → ℕ → Res Buffer
fill_rows zero w s buf x y i color = ok buf
fill_rows (suc n) w s buf x y i color =
    fill_row w s buf x (y +ℤ pos i) 0 color >>= λ buf'. fill_rows n w s buf' x y (i + 1) color

-- `gfxDoDrawRect`
unfoldable pub do_draw_rect : Screen → Rect → Buffer → Rect → ℕ → Res Buffer
do_draw_rect s clip buf area color =
    rect_intersect clip area >>= λ r. fill_rows (pos_part r.h) (pos_part r.w) s buf r.x r.y 0 color

-- The inner loop of `gfxDoDrawChar`: the bits of a row of the glyph.
unfoldable pub draw_bits : ℕ → Screen → Rect → Buffer → ℤ → ℤ → ℕ → ℕ → ℕ → Res Buffer
draw_bits zero s clip buf x y j row color = ok buf
draw_bits (suc n) s clip buf x y j row color =
    (if bit_and row (2 ^ j) == 0 then ok buf else set_pixel s clip buf (x +ℤ pos j) y color)
    >>= λ buf'. draw_bits n s clip buf' x y (j + 1) row color

-- Its outer loop, over the rows of the glyph.
unfoldable pub draw_rows : ℕ → Screen → Rect → Buffer → ℤ → ℤ → ℕ → (ℕ → ℕ) → ℕ → Res Buffer
draw_rows zero s clip buf x y i glyph color = ok buf
draw_rows (suc n) s clip buf x y i glyph color =
    draw_bits 8 s clip buf x (y +ℤ pos i) 0 (glyph i) color >>= λ buf'.
    draw_rows n s clip buf' x y (i + 1) glyph color

-- `gfxDoDrawChar`; `font` is `font8x8_basic`, which has 128 glyphs.
unfoldable pub do_draw_char : Screen → Rect → Buffer → (ℕ → ℕ → ℕ) → ℤ → ℤ → ℕ → ℕ → Res Buffer
do_draw_char s clip buf font x y c color =
    if ltb c 128 then draw_rows 8 s clip buf x y 0 (font c) color else fault
