-- ===== src/Gfx/Calls/Safe.antt =====
-- Whatever an Umka program draws, the graphics do not fault.
use Prim.Native.Nat.{bit_or}
use umka_os.Base.{
  ℕ, suc, ◌+◌, ◌*◌, lt→ltb, ◌^◌, ◌≤◌, ◌<◌, ◌≡◌, refl, List, [], ◌∷◌, arith, subst, sym, Res, ok,
}
use umka_os.Base.Int.{ℤ, pos, negsuc, pos_part, ◌≤ℤ◌}
use umka_os.Gfx.Rect.{Rect}
use umka_os.Gfx.Blit.{to_uint32}
use umka_os.Gfx.Rect.Meet.{Within}
use umka_os.Gfx.Draw.Pixel.{IsScreen}
use umka_os.Gfx.Queue.{
  draw_bckg, draw_icon, draw_char, draw_rect, Gfx, Bytes, Assets, to_char, shift_left, Frame,
  centre, draw_background, set_color, queue_icon, queue_char, queue_rect,
}
use umka_os.Gfx.Queue.Sound.{
  IsModest, IsQueue, AllSound, bckg_sound, icon_sound, char_sound, rect_sound, pos-Within,
  push-IsQueue, queue_clip-IsQueue,
}
use umka_os.Gfx.Queue.Safe.{swap-Runs}
use umka_os.Gfx.Calls.{
  Call, call_color, call_background, call_rect, call_clip, call_icon, call_char, call_swap, apply,
  apply_all,
}

-- A color that does not overflow, numbers of at most 2 ^ 27 from 0, a character that has a glyph, and
-- an icon that is in the image.
abbrev pub IsFine : Assets → Call → Type 0
IsFine a (call_color red green blue) =
    (pos 0 ≤ℤ red) × (pos_part red < 2 ^ 15) × (pos 0 ≤ℤ green) × (pos_part green < 2 ^ 23)
IsFine a call_background = Unit
IsFine a (call_rect area) = IsModest area
IsFine a (call_clip area) = IsModest area
IsFine a (call_icon x y c) =
    Within (2 ^ 27) x
    × Within (2 ^ 27) y
    × (to_char c < 128)
    × (to_char c * 12 + 12 ≤ a.icons.width)
IsFine a (call_char x y c) = Within (2 ^ 27) x × Within (2 ^ 27) y × (to_char c < 128)
IsFine a call_swap = Unit

abbrev pub AllFine : Assets → List Call → Type 0
AllFine a [] = Unit
AllFine a (call ∷ calls) = IsFine a call × AllFine a calls

shift_left-ok :
    (z : ℤ) (k : ℕ)
    → pos 0 ≤ℤ z
    → pos_part z * 2 ^ k < 2 ^ 31
    → shift_left z k ≡ ok (pos_part z * 2 ^ k)
unfolding shift_left
shift_left-ok (pos n) k h small = rw (shift_left, lt→ltb (n * 2 ^ k) (2 ^ 31) small) refl
shift_left-ok (negsuc n) k h small = absurd (omega arith)

-- A screen that the cells cover a part of, a background that fits it, and icons of 16 rows.
pub record IsReady (a : Assets) : Type 0 where
  pub screen : IsScreen a.screen
  pub wide : 1024 ≤ a.screen.width
  pub high : 768 ≤ a.screen.height
  pub background_wide : a.background.width ≤ a.screen.width
  pub background_high : a.background.height ≤ a.screen.height
  pub icons_high : 16 ≤ a.icons.height

centre-Within :
    (outer inner : ℕ) → outer < 2 ^ 15 → inner ≤ outer → Within (2 ^ 27) (centre outer inner)
unfolding centre
centre-Within outer inner h g = (omega arith, omega arith)

background-IsQueue :
    (a : Assets) (g : Gfx)
    → IsReady a
    → IsQueue a g
    → IsQueue a (draw_background a.screen a.background g)
unfolding draw_background
background-IsQueue a g ready q =
    let s = a.screen in
    let b = a.background in
    let area : Rect = record {
      x = centre s.width b.width;
      y = centre s.height b.height;
      w = pos b.width;
      h = pos b.height;
    } in
    let sides = ready.screen in
    let modest : IsModest area = record {
      x = centre-Within s.width b.width sides.width ready.background_wide;
      y = centre-Within s.height b.height sides.height ready.background_high;
      w = pos-Within b.width (omega (arith, sides.width, ready.background_wide));
      h = pos-Within b.height (omega (arith, sides.height, ready.background_high));
    } in
    push-IsQueue a g (record { kind = draw_bckg; glyph = 0; color = 0xFFFFFFFF; area = area }) q
      (bckg_sound 0 0xFFFFFFFF area.x area.y b.width b.height (omega arith) modest)

-- A call that ends, with the queue sound.
abbrev Served : Assets → Res Frame → Type 0
Served a r = (f : Frame) × (r ≡ ok f) × IsQueue a f.gfx

apply-Served :
    (a : Assets) (bytes : Bytes) (call : Call) (f : Frame)
    → IsReady a
    → IsFine a call
    → IsQueue a f.gfx
    → Served a (apply a bytes call f)
unfolding apply set_color queue_rect queue_icon queue_char
apply-Served a bytes (call_color red green blue) f ready (r0, r1, g0, g1) q =
    let r = shift_left-ok red 16 r0 (omega arith) in
    let g = shift_left-ok green 8 g0 (omega arith) in
    (
      record f {
        gfx = record f.gfx {
          color = bit_or (bit_or (pos_part red * 2 ^ 16) (pos_part green * 2 ^ 8)) (to_uint32 blue);
        };
      },
      rw (set_color, r, g) refl,
      record { fits = q.fits; sound = q.sound },
    )
apply-Served a bytes call_background f ready fine q = (
  record f { gfx = draw_background a.screen a.background f.gfx },
  refl,
  background-IsQueue a f.gfx ready q,
)
apply-Served a bytes (call_rect area) f ready fine q = (
  record f { gfx = queue_rect area f.gfx },
  refl,
  push-IsQueue a f.gfx (record { kind = draw_rect; glyph = 0; color = f.gfx.color; area = area }) q
      (rect_sound 0 f.gfx.color area fine),
)
apply-Served a bytes (call_clip area) f ready fine q =
    let (g, e, v) = queue_clip-IsQueue a area f.gfx ready.screen fine q in
    (record f { gfx = g }, rw e refl, v)
apply-Served a bytes (call_icon x y c) f ready (hx, hy, known, wide) q =
    let area : Rect = record { x = x; y = y; w = pos 12; h = pos 16 } in
    let modest : IsModest area = record {
      x = hx;
      y = hy;
      w = pos-Within 12 (omega arith);
      h = pos-Within 16 (omega arith);
    } in
    (
      record f { gfx = queue_icon x y c f.gfx },
      refl,
      push-IsQueue a f.gfx
          (record { kind = draw_icon; glyph = to_char c; color = f.gfx.color; area = area }) q
          (icon_sound (to_char c) f.gfx.color area known wide ready.icons_high modest),
    )
apply-Served a bytes (call_char x y c) f ready (hx, hy, known) q =
    let area : Rect = record { x = x; y = y; w = pos 8; h = pos 8 } in
    let modest : IsModest area = record {
      x = hx;
      y = hy;
      w = pos-Within 8 (omega arith);
      h = pos-Within 8 (omega arith);
    } in
    (
      record f { gfx = queue_char x y c f.gfx },
      refl,
      push-IsQueue a f.gfx
          (record { kind = draw_char; glyph = to_char c; color = f.gfx.color; area = area }) q
          (char_sound (to_char c) f.gfx.color area known modest),
    )
apply-Served a bytes call_swap f ready fine q =
    let (f', e, empty) = swap-Runs a bytes f ready.screen ready.wide ready.high q in
    (f', e, record { fits = rw empty (omega arith); sound = subst (AllSound a) (sym empty) tt })

-- On a screen of at least 1024 by 768 pixels, with a background that fits it and icons of at least 16
-- rows, every sequence of calls of the bindings, with numbers of at most 2 ^ 27 from 0, characters
-- that have a glyph, icons that are in their image and colors that do not overflow, ends without a
-- fault from a sound queue, however many commands are queued between two calls of `gfxSwap`, and
-- leaves a sound queue.
pub apply_all-IsQueue :
    (a : Assets) (bytes : ℕ → Bytes) (calls : List Call) (f : Frame)
    → IsReady a
    → AllFine a calls
    → IsQueue a f.gfx
    → (f' : Frame) × (apply_all a bytes calls f ≡ ok f') × IsQueue a f'.gfx
unfolding apply_all
apply_all-IsQueue a bytes [] f ready fine q = (f, refl, q)
apply_all-IsQueue a bytes (call ∷ calls) f ready (fine, more) q =
    let (f1, e, q1) = apply-Served a (bytes 0) call f ready fine q in
    let (f2, g, q2) = apply_all-IsQueue a (λ n. bytes (suc n)) calls f1 ready more q1 in
    (f2, rw e g, q2)
