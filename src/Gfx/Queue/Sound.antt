-- ===== src/Gfx/Queue/Sound.antt =====
-- What every command in the queue satisfies.
use umka_os.Base.{
  ℕ, ◌+◌, ◌*◌, ◌^◌, ◌≤◌, ◌<◌, ◌≡◌, refl, inl, inr, false, List, [], ◌∷◌, ◌++◌, arith, leb, length,
  length-append, Bool-cases, ok,
}
use umka_os.Base.Int.{ℤ, pos, ◌+ℤ◌, ◌-ℤ◌, ◌≤ℤ◌, +ℤ_parts, -ℤ_parts}
use umka_os.Gfx.Rect.{Rect, larger, smaller, rect_intersect}
use umka_os.Gfx.Rect.Meet.{
  Within, +ℤ-Within, -ℤ-Within, larger-Within, smaller-Within, Small, IsSmall, meet-ok, extent,
  le-larger, smaller_le,
}
use umka_os.Gfx.Draw.{Screen}
use umka_os.Gfx.Draw.Pixel.{IsClip, IsScreen}
use umka_os.Gfx.Queue.{
  draw_bckg, draw_icon, draw_char, draw_rect, draw_clip, Command, Gfx, Assets, max_commands, push,
  screen_rect, queue_clip,
}

-- A rectangle whose numbers are at most 2 ^ 27 from 0.
pub record IsModest (r : Rect) : Type 0 where
  pub x : Within (2 ^ 27) r.x
  pub y : Within (2 ^ 27) r.y
  pub w : Within (2 ^ 27) r.w
  pub h : Within (2 ^ 27) r.h

-- The numbers of a command are at most 2 ^ 27 from 0, the background is no wider than its image and
-- its size is not negative, a clip lies on the screen, and a character or an icon has a picture.
pub data IsSound (a : Assets) : Command → Type 0 where
  bckg_sound :
      (c : ℕ) (color : ℕ) (x y : ℤ) (w h : ℕ)
      → w ≤ a.background.width
      → IsModest (record { x = x; y = y; w = pos w; h = pos h })
      → IsSound a (record {
        kind = draw_bckg;
        glyph = c;
        color = color;
        area = record { x = x; y = y; w = pos w; h = pos h };
      })
  icon_sound :
      (c : ℕ) (color : ℕ) (area : Rect)
      → c < 128
      → c * 12 + 12 ≤ a.icons.width
      → 16 ≤ a.icons.height
      → IsModest area
      → IsSound a (record { kind = draw_icon; glyph = c; color = color; area = area })
  char_sound :
      (c : ℕ) (color : ℕ) (area : Rect)
      → c < 128
      → IsModest area
      → IsSound a (record { kind = draw_char; glyph = c; color = color; area = area })
  rect_sound :
      (c : ℕ) (color : ℕ) (area : Rect)
      → IsModest area
      → IsSound a (record { kind = draw_rect; glyph = c; color = color; area = area })
  clip_sound :
      (c : ℕ) (color : ℕ) (area : Rect)
      → IsClip a.screen area
      → IsSound a (record { kind = draw_clip; glyph = c; color = color; area = area })

abbrev pub AllSound : Assets → List Command → Type 0
AllSound a [] = Unit
AllSound a (c ∷ commands) = IsSound a c × AllSound a commands

-- The queue fits its array.
pub record IsQueue (a : Assets) (g : Gfx) : Type 0 where
  pub fits : length g.commands ≤ max_commands
  pub sound : AllSound a g.commands

AllSound-append :
    (a : Assets) (xs : List Command) (c : Command)
    → AllSound a xs
    → IsSound a c
    → AllSound a (xs ++ c ∷ [])
AllSound-append a [] c h v = (v, tt)
AllSound-append a (x ∷ xs) c (h, hs) v = (h, AllSound-append a xs c hs v)

room-lt : (n : ℕ) → leb max_commands n ≡ false → n + 1 ≤ max_commands
room-lt n room = ground arith

-- Queueing a sound command keeps the queue sound and within its array, full or not.
pub push-IsQueue :
    (a : Assets) (g : Gfx) (c : Command) → IsQueue a g → IsSound a c → IsQueue a (push g c)
unfolding push
push-IsQueue a g c q v = elim (Bool-cases (leb max_commands (length g.commands))) [
  | inl full ↦ rw (push, full) q
  | inr room ↦
      rw (push, room)
        (record {
          fits = rw (length-append g.commands (c ∷ [])) (room-lt (length g.commands) room);
          sound = AllSound-append a g.commands c q.sound v;
        })
]

modest-Small : (z : ℤ) → Within (2 ^ 27) z → Small z
modest-Small z h = (omega arith, omega arith)

modest_meet :
    (x1 w1 x2 w2 : ℤ)
    → Within (2 ^ 27) x1
    → Within (2 ^ 27) w1
    → Within (2 ^ 27) x2
    → Within (2 ^ 27) w2
    → Small (larger x1 x2) × Small (extent x1 w1 x2 w2)
modest_meet x1 w1 x2 w2 hx1 hw1 hx2 hw2 =
    let r1 = +ℤ-Within x1 w1 (2 ^ 27) (2 ^ 27) hx1 hw1 in
    let r2 = +ℤ-Within x2 w2 (2 ^ 27) (2 ^ 27) hx2 hw2 in
    let high = larger-Within (2 ^ 27) x1 x2 hx1 hx2 in
    let low = smaller-Within (2 ^ 27 + 2 ^ 27) (x1 +ℤ w1) (x2 +ℤ w2) r1 r2 in
    let d =
      -ℤ-Within (smaller (x1 +ℤ w1) (x2 +ℤ w2)) (larger x1 x2) (2 ^ 27 + 2 ^ 27) (2 ^ 27) low
        high in
    ((omega arith, omega arith), (omega arith, omega arith))

-- What two such rectangles have in common is small.
pub meet-IsSmall :
    (a b : Rect)
    → IsModest a
    → IsModest b
    → IsSmall (record {
      x = larger a.x b.x;
      y = larger a.y b.y;
      w = extent a.x a.w b.x b.w;
      h = extent a.y a.h b.y b.h;
    })
meet-IsSmall a b ma mb =
    let (x, w) = modest_meet a.x a.w b.x b.w ma.x ma.w mb.x mb.w in
    let (y, h) = modest_meet a.y a.h b.y b.h ma.y ma.h mb.y mb.h in
    record { x = x; y = y; w = w; h = h }

pub modest-IsSmall : (a : Rect) → IsModest a → IsSmall a
modest-IsSmall a m = record {
  x = modest-Small a.x m.x;
  y = modest-Small a.y m.y;
  w = modest-Small a.w m.w;
  h = modest-Small a.h m.h;
}

pub pos-Within : (n : ℕ) → n < 2 ^ 15 → Within (2 ^ 27) (pos n)
pos-Within n h = (omega arith, omega arith)

screen_rect-IsModest : (s : Screen) → IsScreen s → IsModest (screen_rect s)
screen_rect-IsModest s v = record {
  x = pos-Within 0 (omega arith);
  y = pos-Within 0 (omega arith);
  w = pos-Within s.width v.width;
  h = pos-Within s.height v.height;
}

pub screen_rect-IsClip : (s : Screen) → IsScreen s → IsClip s (screen_rect s)
screen_rect-IsClip s v = record {
  small = modest-IsSmall (screen_rect s) (screen_rect-IsModest s v);
  left = omega arith;
  top = omega arith;
  right = omega (arith, +ℤ_parts (pos 0) (pos s.width));
  bottom = omega (arith, +ℤ_parts (pos 0) (pos s.height));
}

start-le : (x : ℤ) → pos 0 ≤ℤ larger x (pos 0)
start-le x = (le-larger x (pos 0)).1

end-le : (x w : ℤ) (n : ℕ) → larger x (pos 0) +ℤ extent x w (pos 0) (pos n) ≤ℤ pos n
end-le x w n =
    let r = smaller (x +ℤ w) (pos 0 +ℤ pos n) in
    omega (
      arith,
      (smaller_le (x +ℤ w) (pos 0 +ℤ pos n)).1,
      +ℤ_parts (pos 0) (pos n),
      -ℤ_parts r (larger x (pos 0)),
      +ℤ_parts (larger x (pos 0)) (r -ℤ larger x (pos 0)),
    )

-- On a screen, with a clip whose numbers are at most 2 ^ 27 from 0, `gfxDrawClip` overflows nowhere
-- and keeps the queue within its array; every clip that it queues lies on the screen.
pub queue_clip-IsQueue :
    (a : Assets) (area : Rect) (g : Gfx)
    → IsScreen a.screen
    → IsModest area
    → IsQueue a g
    → (g' : Gfx) × (queue_clip a.screen area g ≡ ok g') × IsQueue a g'
unfolding queue_clip rect_intersect
queue_clip-IsQueue a area g v m q =
    let s = a.screen in
    elim (Bool-cases (leb max_commands (length g.commands))) [
      | inl full ↦ (g, rw (queue_clip, full) refl, q)
      | inr room ↦
          let sa = modest-IsSmall area m in
          let ss = modest-IsSmall (screen_rect s) (screen_rect-IsModest s v) in
          let r : Rect = record {
            x = larger area.x (pos 0);
            y = larger area.y (pos 0);
            w = extent area.x area.w (pos 0) (pos s.width);
            h = extent area.y area.h (pos 0) (pos s.height);
          } in
          let c : Command = record { kind = draw_clip; glyph = 0; color = 0; area = r } in
          let clip_ok : IsClip s r = record {
            small = meet-IsSmall area (screen_rect s) m (screen_rect-IsModest s v);
            left = start-le area.x;
            top = start-le area.y;
            right = end-le area.x area.w s.width;
            bottom = end-le area.y area.h s.height;
          } in
          (
            push g c,
            rw
                (
                  queue_clip,
                  room,
                  meet-ok area.x area.w (pos 0) (pos s.width) sa.x sa.w ss.x ss.w,
                  meet-ok area.y area.h (pos 0) (pos s.height) sa.y sa.h ss.y ss.h,
                )
                refl,
            push-IsQueue a g c q (clip_sound 0 0 r clip_ok),
          )
    ]

pub sound-IsSmall : (a : Assets) (cmd : Command) → IsSound a cmd → IsSmall cmd.area
sound-IsSmall a cmd (bckg_sound glyph color x y w h le modest) =
    modest-IsSmall (record { x = x; y = y; w = pos w; h = pos h }) modest
sound-IsSmall a cmd (icon_sound glyph color area known le high modest) = modest-IsSmall area modest
sound-IsSmall a cmd (char_sound glyph color area known modest) = modest-IsSmall area modest
sound-IsSmall a cmd (rect_sound glyph color area modest) = modest-IsSmall area modest
sound-IsSmall a cmd (clip_sound glyph color area lies) = lies.small
