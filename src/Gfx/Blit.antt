-- ===== src/Gfx/Blit.antt =====
-- The copy of a region of the back buffer to video memory, at the end of `gfxRedrawRegion` of
-- src/sys/gfx.c. A pixel there has three bytes.
pub mod Shown
use umka_os.Base.{
  ℕ, zero, suc, ◌+◌, ◌-◌, ◌*◌, ◌/◌, ◌%◌, ◌^◌, ltb, if◌then◌else◌, update, Res, ok, fault, ◌>>=◌,
}
use umka_os.Base.Int.{checked, ℤ, pos, negsuc, pos_part, ◌+ℤ◌}
use umka_os.Gfx.Rect.{Rect}
use umka_os.Gfx.Draw.{Screen, Buffer}

-- `pixels[0 .. width * height * 3)`
abbrev pub Video : Type 0
Video = ℕ → ℕ

abbrev pub word32 : ℕ
word32 = 2 ^ 32

-- An `int` that is converted to `uint32_t`.
unfoldable pub to_uint32 : ℤ → ℕ
to_uint32 (pos n) = n % word32
to_uint32 (negsuc n) = (word32 - 1) - n % word32

-- `x + y * vesa_blit_info.width`
unfoldable pub pixel_index : Screen → ℤ → ℤ → ℕ
pixel_index s x y = (to_uint32 x + to_uint32 y * s.width) % word32

-- `color`, `color >> 8` and `color >> 16`, in a `uint8_t`.
unfoldable pub channel : ℕ → ℕ → ℕ
channel zero color = color % 256
channel (suc zero) color = color / 256 % 256
channel (suc (suc k)) color = color / 65536 % 256

-- `vesa_blit_info.pixels[… * 3 + k] = byte`
unfoldable pub poke_byte : Screen → Video → ℕ → ℕ → Res Video
poke_byte s video at byte =
    if ltb at (s.width * s.height * 3) then ok (update video at byte) else fault

-- A read of the back buffer.
unfoldable pub peek : Screen → Buffer → ℕ → Res ℕ
peek s buf i = if ltb i (s.width * s.height) then ok (buf i) else fault

-- The body of the inner loop.
unfoldable pub blit_pixel : Screen → Buffer → Video → ℤ → ℤ → Res Video
blit_pixel s buf video x y =
    let i = pixel_index s x y in
    peek s buf i >>= λ color. poke_byte s video (i * 3 % word32) (channel 0 color) >>= λ video1.
    poke_byte s video1 ((i * 3 + 1) % word32) (channel 1 color) >>= λ video2.
    poke_byte s video2 ((i * 3 + 2) % word32) (channel 2 color)

-- The inner loop, with the rounds that are left.
unfoldable pub blit_row : ℕ → Screen → Buffer → Video → ℤ → ℤ → ℕ → Res Video
blit_row zero s buf video x y j = ok video
blit_row (suc n) s buf video x y j =
    blit_pixel s buf video (x +ℤ pos j) y >>= λ video'. blit_row n s buf video' x y (j + 1)

-- The outer loop.
unfoldable pub blit_rows : ℕ → Screen → Buffer → Video → Rect → ℕ → Res Video
blit_rows zero s buf video r i = ok video
blit_rows (suc n) s buf video r i = checked (r.x +ℤ r.w) >>= λ right.
    blit_row (pos_part r.w) s buf video r.x (r.y +ℤ pos i) 0 >>= λ video'.
    blit_rows n s buf video' r (i + 1)

-- The copy of a region.
unfoldable pub blit : Screen → Buffer → Video → Rect → Res Video
blit s buf video r = checked (r.y +ℤ r.h) >>= λ bottom. blit_rows (pos_part r.h) s buf video r 0
