-- ===== src/Gfx/Calls.antt =====
-- The calls that the Umka code makes to the graphics, through the bindings `api__gfx…` of
-- src/sys/umka.c.
pub mod Safe
use Prim.Native.Nat.{bit_and, bit_or}
use umka_os.Base.{ℕ, suc, ◌*◌, ◌/◌, ◌^◌, List, [], ◌∷◌, Res, ok, ◌>>=◌}
use umka_os.Base.Int.{ℤ, pos}
use umka_os.Gfx.Rect.{Rect}
use umka_os.Gfx.Draw.{Screen, Buffer}
use umka_os.Gfx.Blit.{Video}
use umka_os.Gfx.Queue.{
  Image, Bytes, Assets, Frame, draw_background, set_color, queue_icon, queue_char, queue_rect,
  queue_clip, swap,
}

-- The exchange of red and blue in a pixel of the background.
unfoldable pub swap_red_blue : ℕ → ℕ
swap_red_blue c =
    bit_or (bit_or (bit_and c 0xFF00FF00) (bit_and c 0xFF * 2 ^ 16)) (bit_and c 0xFF0000 / 2 ^ 16)

-- `gfxInit`, given the screen, the font, the images as they are decoded, the bytes that `malloc`
-- finds for the back buffer, and what is in video memory.
unfoldable pub gfx_init : Screen → (ℕ → ℕ → ℕ) → Image → Image → Buffer → Video → Assets × Frame
gfx_init s font icons background buffer video = (
  record {
    screen = s;
    background = record background { pixels = λ i. swap_red_blue (background.pixels i) };
    icons = icons;
    font = font;
  },
  record {
    gfx = record { commands = []; color = 0xFFFFFF };
    hashes1 = λ i. 0;
    hashes2 = λ i. 0x01010101;
    clip = record { x = pos 0; y = pos 0; w = pos 0; h = pos 0 };
    buffer = buffer;
    video = video;
  },
)

-- `gfxDims`
unfoldable pub gfx_dims : Screen → ℕ × ℕ
gfx_dims s = (s.width, s.height)

-- The bindings with their parameters.
pub data Call : Type 0 where
  call_color : ℤ → ℤ → ℤ → Call
  call_background : Call
  call_rect : Rect → Call
  call_clip : Rect → Call
  call_icon : ℤ → ℤ → ℤ → Call
  call_char : ℤ → ℤ → ℤ → Call
  call_swap : Call

unfoldable pub apply : Assets → Bytes → Call → Frame → Res Frame
apply a bytes (call_color red green blue) f =
    set_color red green blue f.gfx >>= λ g. ok (record f { gfx = g })
apply a bytes call_background f =
    ok (record f { gfx = draw_background a.screen a.background f.gfx })
apply a bytes (call_rect area) f = ok (record f { gfx = queue_rect area f.gfx })
apply a bytes (call_clip area) f = queue_clip a.screen area f.gfx >>= λ g. ok (record f { gfx = g })
apply a bytes (call_icon x y c) f = ok (record f { gfx = queue_icon x y c f.gfx })
apply a bytes (call_char x y c) f = ok (record f { gfx = queue_char x y c f.gfx })
apply a bytes call_swap f = swap a bytes f

-- The calls of a program one after the other, each with the bytes that the commands then have.
unfoldable pub apply_all : Assets → (ℕ → Bytes) → List Call → Frame → Res Frame
apply_all a bytes [] f = ok f
apply_all a bytes (call ∷ calls) f =
    apply a (bytes 0) call f >>= λ f'. apply_all a (λ n. bytes (suc n)) calls f'
