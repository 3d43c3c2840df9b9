-- ===== src/Gfx/Queue.antt =====
-- The command queue of src/sys/gfx.c, what `gfxRedrawRegion` draws for it, and `gfxSwap`.
pub mod Sound
pub mod Redraw
pub mod Shows
pub mod Swap
pub mod Safe
pub mod Clean
use Prim.Native.Nat.{bit_and, bit_or}
use umka_os.Base.{
  map, ℕ, zero, suc, ◌+◌, ◌-◌, ◌*◌, ◌/◌, ◌%◌, ◌^◌, Bool, true, false, List, [], ◌∷◌, ◌++◌, length,
  ◌==◌, ltb, leb, if◌then◌else◌, Res, ok, fault, ◌>>=◌,
}
use umka_os.Base.Int.{ℤ, pos, negsuc, pos_part, ◌+ℤ◌, ◌-ℤ◌, ltb_ℤ}
use umka_os.Gfx.Rect.{Rect, rect_intersect, rect_overlap}
use umka_os.Gfx.Hash.{fnv_32_init}
use umka_os.Gfx.Cells.{cell_size, cells_y, Hashes, Region, mark_command, swap_row}
use umka_os.Gfx.Draw.{Screen, Buffer, plot, set_pixel, do_draw_rect, do_draw_char}
use umka_os.Gfx.Blit.{Video, to_uint32, blit}

pub data Kind : Type 0 where
  draw_bckg draw_icon draw_char draw_rect draw_clip : Kind

-- `data`, `color` and the rectangle of a command.
pub record Command : Type 0 where
  pub kind : Kind
  pub glyph : ℕ
  pub color : ℕ
  pub area : Rect

-- `commands[0 .. command_count)` and the current color.
pub record Gfx : Type 0 where
  pub commands : List Command
  pub color : ℕ

-- An image that `qoi_read` has decoded: its size and its pixels.
pub record Image : Type 0 where
  pub width : ℕ
  pub height : ℕ
  pub pixels : ℕ → ℕ

-- `malloc(4096 * sizeof(struct Command))`
abbrev pub max_commands : ℕ
max_commands = 4096

-- The test of `command_count` and the assignment behind it.
unfoldable pub push : Gfx → Command → Gfx
push g command =
    if leb max_commands (length g.commands)
    then g
    else record g { commands = g.commands ++ command ∷ [] }

-- `(vesa_mode_info_struct.width - background_desc.width) / 2`, an unsigned difference.
unfoldable pub centre : ℕ → ℕ → ℤ
centre outer inner = pos ((outer + 2 ^ 32 - inner) % 2 ^ 32 / 2)

-- `gfxDrawBackground`
unfoldable pub draw_background : Screen → Image → Gfx → Gfx
draw_background s background g = push g (record {
  kind = draw_bckg;
  glyph = 0;
  color = 0xFFFFFFFF;
  area = record {
    x = centre s.width background.width;
    y = centre s.height background.height;
    w = pos background.width;
    h = pos background.height;
  };
})

-- `z << k` of an `int`; a negative number or an overflow is a fault.
unfoldable pub shift_left : ℤ → ℕ → Res ℕ
shift_left (pos n) k = if ltb (n * 2 ^ k) (2 ^ 31) then ok (n * 2 ^ k) else fault
shift_left (negsuc n) k = fault

-- `gfxSetColor`
unfoldable pub set_color : ℤ → ℤ → ℤ → Gfx → Res Gfx
set_color r g b gfx = shift_left r 16 >>= λ red.
    shift_left g 8 >>= λ green. ok (record gfx { color = bit_or (bit_or red green) (to_uint32 b) })

-- An `int` that is converted to `char`: its byte.
unfoldable pub to_char : ℤ → ℕ
to_char (pos n) = n % 256
to_char (negsuc n) = 255 - n % 256

-- `gfxDrawIcon`
unfoldable pub queue_icon : ℤ → ℤ → ℤ → Gfx → Gfx
queue_icon px py c g = push g (record {
  kind = draw_icon;
  glyph = to_char c;
  color = g.color;
  area = record { x = px; y = py; w = pos 12; h = pos 16 };
})

-- `gfxDrawChar`
unfoldable pub queue_char : ℤ → ℤ → ℤ → Gfx → Gfx
queue_char x y c g = push g (record {
  kind = draw_char;
  glyph = to_char c;
  color = g.color;
  area = record { x = x; y = y; w = pos 8; h = pos 8 };
})

-- `gfxDrawRect`
unfoldable pub queue_rect : Rect → Gfx → Gfx
queue_rect area g = push g (record { kind = draw_rect; glyph = 0; color = g.color; area = area })

-- The whole screen.
abbrev pub screen_rect : Screen → Rect
screen_rect s = record { x = pos 0; y = pos 0; w = pos s.width; h = pos s.height }

-- `gfxDrawClip`; a full queue is tested first.
unfoldable pub queue_clip : Screen → Rect → Gfx → Res Gfx
queue_clip s area g =
    if leb max_commands (length g.commands)
    then ok g
    else (rect_intersect area (screen_rect s) >>= λ r.
        ok (push g (record { kind = draw_clip; glyph = 0; color = 0; area = r })))

-- A read of a pixel of an image.
unfoldable pub read_pixel : Image → ℤ → Res ℕ
read_pixel image (pos i) = if ltb i (image.width * image.height) then ok (image.pixels i) else fault
read_pixel image (negsuc i) = fault

-- `w1 * 4`, as the `size_t` of `memcpy` in pixels; a negative number is a huge size.
unfoldable pub row_size : ℤ → Res ℕ
row_size (pos n) = if ltb n (2 ^ 29) then ok n else fault
row_size (negsuc n) = fault

-- `memcpy` of a row of the background, pixel by pixel.
unfoldable pub copy_row : ℕ → Screen → Image → Buffer → ℤ → ℤ → ℕ → ℕ → Res Buffer
copy_row zero s image buf x y j from = ok buf
copy_row (suc n) s image buf x y j from = read_pixel image (pos (from + j)) >>= λ texel.
    plot s buf (x +ℤ pos j) y texel >>= λ buf'. copy_row n s image buf' x y (j + 1) from

-- `(x1 - cmd.x) + texY * background_desc.width`; `x1` is never less than `cmd.x`.
unfoldable pub texture_row : Image → ℤ → ℕ → ℕ
texture_row background offset row = pos_part offset + row * background.width

-- The loop over the rows of the background; `up` is `y1 - cmd.y`.
unfoldable pub copy_rows : ℕ → ℤ → Screen → Image → Buffer → ℤ → ℤ → ℤ → ℤ → ℕ → Res Buffer
copy_rows zero w s background buf x y offset up i = ok buf
copy_rows (suc n) w s background buf x y offset up i =
    let row = pos_part (pos i +ℤ up) in
    (if ltb_ℤ (pos i +ℤ up) (pos 0)
      then ok buf
      else if leb background.height row
      then ok buf
      else (row_size w >>= λ n.
          copy_row n s background buf x (y +ℤ pos i) 0 (texture_row background offset row)))
    >>= λ buf'. copy_rows n w s background buf' x y offset up (i + 1)

-- `c * 12` for a `char`, which is signed.
unfoldable pub icon_offset : ℕ → ℤ
icon_offset c = if ltb c 128 then pos (c * 12) else pos (c * 12) -ℤ pos 3072

-- The inner loop of `gfxDoDrawIcon`.
unfoldable pub icon_column : ℕ → Screen → Rect → Buffer → Image → ℤ → ℤ → ℤ → ℕ → ℕ → Res Buffer
icon_column zero s clip buf icons px py ix y color = ok buf
icon_column (suc n) s clip buf icons px py ix y color =
    read_pixel icons (ix +ℤ pos (y * icons.width)) >>= λ texel.
    (if texel % 256 == 0
      then ok buf
      else set_pixel s clip buf px (py +ℤ pos y) (bit_and texel color))
    >>= λ buf'. icon_column n s clip buf' icons px py ix (y + 1) color

-- `gfxDoDrawIcon`, from the column `x` on.
unfoldable pub do_draw_icon : ℕ → Screen → Rect → Buffer → Image → ℤ → ℤ → ℕ → ℕ → ℕ → Res Buffer
do_draw_icon zero s clip buf icons px py x c color = ok buf
do_draw_icon (suc n) s clip buf icons px py x c color =
    icon_column 16 s clip buf icons (px +ℤ pos x) py (pos x +ℤ icon_offset c) 0 color >>= λ buf'.
    do_draw_icon n s clip buf' icons px py (x + 1) c color

-- What the drawing takes from outside: the screen, the images and the font.
pub record Assets : Type 0 where
  pub screen : Screen
  pub background : Image
  pub icons : Image
  pub font : ℕ → ℕ → ℕ

-- The clip, the global `color`, the back buffer and video memory.
pub record Drawing : Type 0 where
  pub clip : Rect
  pub color : ℕ
  pub buffer : Buffer
  pub video : Video

-- The `switch` of `gfxRedrawRegion`, with the assignment to `color` in front of it.
unfoldable pub run_command : Assets → Rect → Command → Drawing → Res Drawing
run_command a region cmd d = elim cmd.kind [
  | draw_bckg ↦ rect_intersect region cmd.area >>= λ r.
      copy_rows (pos_part r.h) r.w a.screen a.background d.buffer r.x r.y (r.x -ℤ cmd.area.x)
        (r.y -ℤ cmd.area.y) 0
      >>= λ buf. ok (record d { color = cmd.color; buffer = buf })
  | draw_icon ↦
      do_draw_icon 12 a.screen d.clip d.buffer a.icons cmd.area.x cmd.area.y 0 cmd.glyph cmd.color
      >>= λ buf. ok (record d { color = cmd.color; buffer = buf })
  | draw_char ↦
      do_draw_char a.screen d.clip d.buffer a.font cmd.area.x cmd.area.y cmd.glyph cmd.color
      >>= λ buf. ok (record d { color = cmd.color; buffer = buf })
  | draw_rect ↦ rect_intersect region cmd.area >>= λ r.
      do_draw_rect a.screen d.clip d.buffer r cmd.color >>= λ buf.
      ok (record d { color = cmd.color; buffer = buf })
  | draw_clip ↦ ok (record d { clip = cmd.area; color = cmd.color })
]

-- The loop over the commands, which skips those that do not overlap the region.
unfoldable pub run_commands : Assets → Rect → List Command → Drawing → Res Drawing
run_commands a region [] d = ok d
run_commands a region (cmd ∷ commands) d = rect_overlap region cmd.area >>= λ overlaps.
    (if overlaps then run_command a region cmd d else ok d) >>= λ d'.
    run_commands a region commands d'

-- `gfxRedrawRegion`
unfoldable pub redraw_region : Assets → List Command → Rect → Drawing → Res Drawing
redraw_region a commands region d =
    run_commands a region commands (record d { clip = screen_rect a.screen }) >>= λ d'.
    blit a.screen d'.buffer d'.video region >>= λ video. ok (record d' { video = video })

-- The regions of `gfxSwap` one after the other.
unfoldable pub redraw_regions : Assets → List Command → List Rect → Drawing → Res Drawing
redraw_regions a commands [] d = ok d
redraw_regions a commands (region ∷ regions) d =
    redraw_region a commands region d >>= λ d'. redraw_regions a commands regions d'

-- The pixels of some cells of the row `y`.
unfoldable pub cell_rect : ℕ → Region → Rect
cell_rect y (start, n) = record {
  x = pos (start * cell_size);
  y = pos (y * cell_size);
  w = pos (cell_size * n);
  h = pos cell_size;
}

-- The regions of all rows, with the rows that are left.
unfoldable pub all_regions : ℕ → Hashes → Hashes → ℕ → List Rect
all_regions zero hashes1 hashes2 y = []
all_regions (suc n) hashes1 hashes2 y =
    map (cell_rect y) (swap_row hashes1 hashes2 y) ++ all_regions n hashes1 hashes2 (y + 1)

-- The bytes in memory of the `i`th command, whose padding can be different each time.
abbrev pub Bytes : Type 0
Bytes = ℕ → Command → List ℕ

-- The first loop of `gfxSwap`.
unfoldable pub mark_commands : Bytes → Hashes → List Command → Res Hashes
mark_commands bytes hashes [] = ok hashes
mark_commands bytes hashes (cmd ∷ commands) =
    mark_command hashes (bytes 0 cmd) cmd.area >>= λ hashes'.
    mark_commands (λ i. bytes (suc i)) hashes' commands

-- The state of the file: the queue with the color, the hashes of this frame and of the last one,
-- the clip, the back buffer and video memory.
pub record Frame : Type 0 where
  pub gfx : Gfx
  pub hashes1 : Hashes
  pub hashes2 : Hashes
  pub clip : Rect
  pub buffer : Buffer
  pub video : Video

-- `gfxSwap`
unfoldable pub swap : Assets → Bytes → Frame → Res Frame
swap a bytes f = mark_commands bytes f.hashes1 f.gfx.commands >>= λ hashes1.
    redraw_regions a f.gfx.commands (all_regions cells_y hashes1 f.hashes2 0)
      (record { clip = f.clip; color = f.gfx.color; buffer = f.buffer; video = f.video })
    >>= λ d. ok (record {
      gfx = record { commands = []; color = d.color };
      hashes1 = λ i. fnv_32_init;
      hashes2 = hashes1;
      clip = d.clip;
      buffer = d.buffer;
      video = d.video;
    })
