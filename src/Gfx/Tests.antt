-- ===== src/Gfx/Tests.antt =====
-- The theorems about src/sys/gfx.c at concrete inputs.
use umka_os.Base.{
  ℕ, ◌+◌, ◌*◌, ◌/◌, ◌%◌, ◌^◌, ◌≡◌, refl, List, [], ◌∷◌, ◌==◌, ◌&&◌, ◌||◌, if◌then◌else◌, arith, ok,
}
use umka_os.Base.Int.{pos, negsuc, ◌+ℤ◌, +ℤ_parts}
use umka_os.Gfx.Rect.{Rect}
use umka_os.Gfx.Rect.Meet.{IsSmall, Inside}
use umka_os.Gfx.Hash.{fnv_32_init, fnv32buf}
use umka_os.Gfx.Cells.{cells_x, Hashes, swap_row, mark_command}
use umka_os.Gfx.Cells.Runs.{covering, swap_row-covering}
use umka_os.Gfx.Cells.Marks.{hash_on, mark_command-Inside}
use umka_os.Gfx.Draw.{Screen, Buffer, do_draw_rect}
use umka_os.Gfx.Draw.Pixel.{IsClip, IsScreen, in_rect}
use umka_os.Gfx.Draw.Fill.{do_draw_rect-in_rect}
use umka_os.Gfx.Queue.{
  draw_rect, draw_bckg, Gfx, Bytes, Image, Assets, to_char, Frame, swap, Drawing, redraw_region,
  mark_commands,
}
use umka_os.Gfx.Queue.Sound.{IsModest, modest-IsSmall, IsQueue, rect_sound, bckg_sound}
use umka_os.Gfx.Queue.Swap.{again, swap-again}
use umka_os.Gfx.Calls.{
  Call, call_color, call_background, call_rect, call_clip, call_char, call_icon, call_swap,
  gfx_init, apply_all,
}
use umka_os.Gfx.Calls.Safe.{IsReady, apply_all-IsQueue}
use umka_os.Gfx.Queue.Safe.{swap-Runs}
use umka_os.Gfx.Queue.Clean.{swap-clean}
use umka_os.Gfx.Queue.Shows.{block, redraw_region-in_rect}

-- A button of 30 by 20 pixels that hangs over the left edge, and a window.
abbrev button : Rect
button = record { x = negsuc 9; y = pos 5; w = pos 30; h = pos 20 }

abbrev window : Rect
window = record { x = pos 0; y = pos 0; w = pos 100; h = pos 100 }

button-IsModest : IsModest button
button-IsModest = record {
  x = (omega arith, omega arith);
  y = (omega arith, omega arith);
  w = (omega arith, omega arith);
  h = (omega arith, omega arith);
}

button-IsSmall : IsSmall button
button-IsSmall = record {
  x = (omega arith, omega arith);
  y = (omega arith, omega arith);
  w = (omega arith, omega arith);
  h = (omega arith, omega arith);
}

window-IsSmall : IsSmall window
window-IsSmall = record {
  x = (omega arith, omega arith);
  y = (omega arith, omega arith);
  w = (omega arith, omega arith);
  h = (omega arith, omega arith);
}

button-Inside : Inside button (pos 3) (pos 7)
unfolding ◌+ℤ◌
button-Inside = ((omega arith, omega arith), (omega arith, omega arith))

abbrev clean : Hashes
clean i = fnv_32_init

-- The cells 3 and 4 of the first row have changed.
abbrev changed : Hashes
changed i = if (i == 3) || (i == 4) then 1 else fnv_32_init

swap_row-covering_example :
    covering (swap_row changed clean 0) 4
    ≡ (if changed (4 + 0 * cells_x) == clean (4 + 0 * cells_x) then 0 else 1)
swap_row-covering_example = swap_row-covering changed clean 0 4 (omega arith)

mark_command-Inside_example :
    (hashes' : Hashes) × (mark_command clean (7 ∷ []) button ≡ ok hashes')
    × (hashes' (3 / 16 + 7 / 16 * cells_x)
        ≡ hash_on (fnv32buf (7 ∷ []) fnv_32_init) (clean (3 / 16 + 7 / 16 * cells_x)))
mark_command-Inside_example =
    mark_command-Inside clean (7 ∷ []) button 3 7 button-IsSmall (omega arith) (omega arith)
      button-Inside

abbrev screen : Screen
screen = record { width = 1024; height = 768 }

pub screen-IsScreen : IsScreen screen
screen-IsScreen = record { width = omega arith; height = omega arith }

window-IsClip : IsClip screen window
unfolding ◌+ℤ◌
window-IsClip = record {
  small = window-IsSmall;
  left = omega arith;
  top = omega arith;
  right = omega arith;
  bottom = omega arith;
}

abbrev black : Buffer
black i = 0

abbrev stripes : ℕ → ℕ → ℕ
stripes c row = 0xAA

do_draw_rect-in_rect_example :
    (buf : Buffer) × (do_draw_rect screen window black button 5 ≡ ok buf)
    × (buf (3 + 7 * 1024) ≡ (
        if in_rect window (pos 3) (pos 7) && in_rect button (pos 3) (pos 7)
        then 5
        else black (3 + 7 * 1024)))
do_draw_rect-in_rect_example =
    do_draw_rect-in_rect screen 5 3 7 screen-IsScreen (omega arith) window black button
      window-IsClip button-IsSmall

abbrev image : Image
image = record { width = 30; height = 20; pixels = λ i. 9 }

abbrev pub assets : Assets
assets = record { screen = screen; background = image; icons = image; font = stripes }

-- A queue with the background and the button.
abbrev queue : Gfx
queue = record {
  commands =
      record { kind = draw_bckg; glyph = 0; color = 9; area = button }
      ∷ record { kind = draw_rect; glyph = 0; color = 5; area = button }
      ∷ [];
  color = 5;
}

pub queue-IsQueue : IsQueue assets queue
queue-IsQueue = record {
  fits = omega arith;
  sound = (
    bckg_sound 0 9 (negsuc 9) (pos 5) 30 20 (omega arith) button-IsModest,
    (rect_sound 0 5 button button-IsModest, tt),
  );
}

abbrev pub frame : Frame
frame = record {
  gfx = queue;
  hashes1 = clean;
  hashes2 = changed;
  clip = window;
  buffer = black;
  video = black;
}

-- The kind and the color stand for the bytes of a command.
abbrev pub bytes : Bytes
bytes i cmd = cmd.glyph ∷ cmd.color ∷ []

swap-Runs_example : (f : Frame) × (swap assets bytes frame ≡ ok f) × (f.gfx.commands ≡ [])
swap-Runs_example =
    swap-Runs assets bytes frame screen-IsScreen (omega arith) (omega arith) queue-IsQueue

first_frame : (f : Frame) × (swap assets bytes frame ≡ ok f) × (f.gfx.commands ≡ [])
first_frame = swap-Runs assets bytes frame screen-IsScreen (omega arith) (omega arith) queue-IsQueue

swap-again_example :
    swap assets bytes (again queue.commands 3 first_frame.0) ≡ ok (again [] 3 first_frame.0)
swap-again_example =
    swap-again assets bytes bytes frame first_frame.0 3 refl first_frame.1 (λ i cmd. refl)

-- The region of the cells 3 and 4.
abbrev cells : Rect
cells = block 48 0 32 16

cells-IsModest : IsModest cells
cells-IsModest = record {
  x = (omega arith, omega arith);
  y = (omega arith, omega arith);
  w = (omega arith, omega arith);
  h = (omega arith, omega arith);
}

cells-IsClip : IsClip screen cells
cells-IsClip = record {
  small = modest-IsSmall cells cells-IsModest;
  left = omega arith;
  top = omega arith;
  right = omega (arith, +ℤ_parts (pos 48) (pos 32));
  bottom = omega (arith, +ℤ_parts (pos 0) (pos 16));
}

abbrev blank_drawing : Drawing
blank_drawing = record { clip = window; color = 0; buffer = black; video = black }

redraw_region-in_rect_example :
    (d : Drawing) × (redraw_region assets queue.commands cells blank_drawing ≡ ok d)
    × (d.video ((50 + 7 * 1024) * 3 + 1) ≡ (
        if in_rect cells (pos 50) (pos 7)
        then d.buffer (50 + 7 * 1024) / 256 ^ 1 % 256
        else black ((50 + 7 * 1024) * 3 + 1)))
redraw_region-in_rect_example =
    redraw_region-in_rect assets 48 0 32 16 50 7 1 queue.commands blank_drawing screen-IsScreen
      cells-IsClip cells-IsModest queue-IsQueue.sound (omega arith) (omega arith)

-- The frame with nothing queued; the cells 3 and 4 were drawn by the last one.
abbrev idle : Frame
idle = again [] 5 frame

swap-clean_example :
    (f : Frame) × (swap assets bytes idle ≡ ok f)
    × (f.video ((7 + 3 * 1024) * 3 + 2) ≡ black ((7 + 3 * 1024) * 3 + 2))
swap-clean_example =
    swap-clean assets bytes idle clean 7 3 2 screen-IsScreen (omega arith) (omega arith)
      (record { fits = omega arith; sound = tt }) marked (omega arith) refl (omega arith)
  where
    marked : mark_commands bytes clean [] ≡ ok clean
    marked = unfold mark_commands in refl

-- What `gfxInit` leaves.
abbrev start : Assets × Frame
start = gfx_init screen stripes image image black black

start-IsReady : IsReady start.0
unfolding gfx_init
start-IsReady = record {
  screen = screen-IsScreen;
  wide = omega arith;
  high = omega arith;
  background_wide = omega arith;
  background_high = omega arith;
  icons_high = omega arith;
}

start-IsQueue : IsQueue start.0 start.1.gfx
unfolding gfx_init
start-IsQueue = record { fits = omega arith; sound = tt }

-- Two frames, with a clip that hangs over the edge.
abbrev drawing : List Call
drawing =
    call_background
    ∷ call_clip button
    ∷ call_color (pos 255) (pos 0) (pos 0)
    ∷ call_char (negsuc 2) (pos 3) (pos 65)
    ∷ call_icon (pos 40) (negsuc 3) (pos 1)
    ∷ call_swap
    ∷ call_rect button
    ∷ call_swap
    ∷ []

apply_all-IsQueue_example :
    (f : Frame) × (apply_all start.0 (λ n. bytes) drawing start.1 ≡ ok f) × IsQueue start.0 f.gfx
unfolding to_char gfx_init
apply_all-IsQueue_example =
    apply_all-IsQueue start.0 (λ n. bytes) drawing start.1 start-IsReady
      (
        tt,
        (
          button-IsModest,
          (
            (omega arith, omega arith, omega arith, omega arith),
            (
              ((omega arith, omega arith), (omega arith, omega arith), omega arith),
              (
                ((omega arith, omega arith), (omega arith, omega arith), omega arith, omega arith),
                (tt, (button-IsModest, (tt, tt))),
              ),
            ),
          ),
        ),
      )
      start-IsQueue
