-- ===== src/Gfx/Queue/Redraw.antt =====
-- Drawing the queue again never leaves the back buffer.
pub mod Copy
pub mod Overlap
use Prim.Native.Nat.{bit_and}
use umka_os.Base.{
  ◌%◌, ℕ, zero, suc, ◌+◌, ◌*◌, ◌≤◌, ◌<◌, ◌≡◌, refl, sym, subst, true, Bool, lt→ltb, ◌∙◌, inl, inr,
  false, ◌&&◌, List, [], ◌∷◌, arith, ◌==◌, leb, update, Bool-cases, Res, ok,
}
use umka_os.Base.Int.{ℤ, pos, negsuc, pos_part, ◌+ℤ◌, ◌-ℤ◌, ◌≤ℤ◌, ltb_ℤ, +ℤ_parts, -ℤ_parts, pos-+ℤ}
use umka_os.Gfx.Rect.{Rect, larger, smaller, rect_intersect, rect_overlap}
use umka_os.Gfx.Rect.Meet.{
  part_zero, smaller_le, IsSmall, extent, extent-le, le-larger, meet-ok, overlap-ok,
}
use umka_os.Gfx.Draw.{Screen, Buffer, set_pixel, do_draw_rect, do_draw_char}
use umka_os.Gfx.Draw.Pixel.{IsClip, IsScreen, plot-ok, in_rect, set_pixel-outside}
use umka_os.Gfx.Draw.Fill.{do_draw_char-outside, do_draw_rect-in_rect}
use umka_os.Gfx.Queue.{
  Command, Image, Assets, Drawing, icon_offset, icon_column, do_draw_icon, run_command,
  run_commands,
}
use umka_os.Gfx.Blit.{Video}
use umka_os.Gfx.Queue.Sound.{
  IsModest, modest-IsSmall, meet-IsSmall, screen_rect-IsClip, sound-IsSmall, IsSound, bckg_sound,
  icon_sound, char_sound, rect_sound, clip_sound, AllSound,
}
use umka_os.Gfx.Queue.Redraw.Overlap.{across, rect_overlap-Runs, across-extent}
use umka_os.Gfx.Queue.Redraw.Copy.{Runs, read_pixel-ok, index-lt, copy-Runs}

below-clip :
    (s : Screen) (clip : Rect) → IsClip s clip → in_rect clip (pos 0) (pos s.height) ≡ false
unfolding in_rect
below-clip s clip c = let low = c.bottom in ground arith

module _ (s : Screen) (clip : Rect) (v : IsScreen s) (some : 0 < s.width) (c : IsClip s clip) where
  set_pixel-Runs : (buf : Buffer) (x y : ℤ) (color : ℕ) → Runs (set_pixel s clip buf x y color)
  set_pixel-Runs buf x y color =
      let (buf', e, same) =
        set_pixel-outside s clip buf x y color 0 s.height v c some (below-clip s clip c) in
      (buf', e)

  icon_column-Runs :
      (n : ℕ) (buf : Buffer) (icons : Image) (px py : ℤ) (ix y color : ℕ)
      → ix < icons.width
      → y + n ≤ icons.height
      → Runs (icon_column n s clip buf icons px py (pos ix) y color)
  unfolding icon_column
  icon_column-Runs zero buf icons px py ix y color hx hy = (buf, refl)
  icon_column-Runs (suc n) buf icons px py ix y color hx hy =
      let texel = icons.pixels (ix + y * icons.width) in
      let at =
        read_pixel-ok icons (ix + y * icons.width)
          (index-lt ix y icons.width icons.height hx (omega arith)) in
      elim (Bool-cases (texel % 256 == 0)) [
        | inl clear ↦
            let (buf', e) = icon_column-Runs n buf icons px py ix (y + 1) color hx (omega arith) in
            (buf', rw (icon_column, pos-+ℤ ix (y * icons.width), at, clear) e)
        | inr solid ↦
            let (buf1, e) = set_pixel-Runs buf px (py +ℤ pos y) (bit_and texel color) in
            let (buf2, f) = icon_column-Runs n buf1 icons px py ix (y + 1) color hx (omega arith) in
            (buf2, rw (icon_column, pos-+ℤ ix (y * icons.width), at, solid, e) f)
      ]

  do_draw_icon-Runs :
      (n : ℕ) (buf : Buffer) (icons : Image) (px py : ℤ) (x glyph color : ℕ)
      → glyph < 128
      → x + n + glyph * 12 ≤ icons.width
      → 16 ≤ icons.height
      → Runs (do_draw_icon n s clip buf icons px py x glyph color)
  unfolding do_draw_icon icon_offset
  do_draw_icon-Runs zero buf icons px py x glyph color known wide high = (buf, refl)
  do_draw_icon-Runs (suc n) buf icons px py x glyph color known wide high =
      let (buf1, e) =
        icon_column-Runs 16 buf icons (px +ℤ pos x) py (x + glyph * 12) 0 color (omega arith)
          (omega arith) in
      let (buf2, f) =
        do_draw_icon-Runs n buf1 icons px py (x + 1) glyph color known (omega arith) high in
      (buf2, rw (do_draw_icon, icon_offset, lt→ltb glyph 128 known, pos-+ℤ x (glyph * 12), e) f)

  do_draw_char-Runs :
      (buf : Buffer) (font : ℕ → ℕ → ℕ) (x y : ℤ) (glyph color : ℕ)
      → glyph < 128
      → Runs (do_draw_char s clip buf font x y glyph color)
  do_draw_char-Runs buf font x y glyph color h =
      let (buf', e, same) =
        do_draw_char-outside s clip color 0 s.height v c some (below-clip s clip c) buf font x y
          glyph h in
      (buf', e)

  do_draw_rect-Runs :
      (buf : Buffer) (area : Rect) (color : ℕ)
      → IsSmall area
      → Runs (do_draw_rect s clip buf area color)
  do_draw_rect-Runs buf area color small =
      let (buf', e, pixel) = do_draw_rect-in_rect s color 0 0 v some clip buf area c small in
      (buf', e)

-- A drawing whose clip lies on the screen, with the video memory of before, as the result of a run.
abbrev pub RunsTo : Screen → Video → Res Drawing → Type 0
RunsTo s video r = (d : Drawing) × (r ≡ ok d) × IsClip s d.clip × (d.video ≡ video)

module _ (a : Assets) (region : Rect) (v : IsScreen a.screen) (some : 0 < a.screen.width)
    (on : IsClip a.screen region) (m : IsModest region) (wide : ℕ)
    (width : region.w ≡ pos wide) where
  run_command-Runs :
      (cmd : Command) (d : Drawing)
      → IsSound a cmd
      → across region cmd.area ≡ true
      → IsClip a.screen d.clip
      → RunsTo a.screen d.video (run_command a region cmd d)
  unfolding run_command rect_intersect
  run_command-Runs cmd d (bckg_sound glyph color ax ay aw ah le modest) meets c =
      let area : Rect = record { x = ax; y = ay; w = pos aw; h = pos ah } in
      let sa = modest-IsSmall area modest in
      let sr = on.small in
      let x = larger region.x ax in
      let y = larger region.y ay in
      let (some_width, inside) =
        subst
          (λ w.
            (pos 0 ≤ℤ extent region.x w ax (pos aw))
            × (pos_part (x -ℤ ax) + pos_part (extent region.x w ax (pos aw)) ≤ aw))
          (sym width)
          (across-extent region.x ax wide aw (
            subst (λ w. (ltb_ℤ region.x (ax +ℤ pos aw) && ltb_ℤ ax (region.x +ℤ w)) ≡ true) width
              meets)) in
      let (buf, e) =
        copy-Runs a.screen a.background v d.buffer x y (extent region.x region.w ax (pos aw))
          (extent region.y region.h ay (pos ah)) (x -ℤ ax) (y -ℤ ay)
          (omega (arith, (le-larger region.x ax).0, on.left))
          (omega (arith, (le-larger region.y ay).0, on.top)) some_width
          (omega (arith, extent-le region.x region.w ax (pos aw), on.right))
          (omega (arith, extent-le region.y region.h ay (pos ah), on.bottom))
          (omega (arith, inside)) in
      (
        record d { color = color; buffer = buf },
        rw
            (
              meet-ok region.x region.w ax (pos aw) sr.x sr.w sa.x sa.w,
              meet-ok region.y region.h ay (pos ah) sr.y sr.h sa.y sa.h,
              e,
            )
            refl,
        c,
        refl,
      )
  run_command-Runs cmd d (icon_sound glyph color area known fits high modest) meets c =
      let (buf, e) =
        do_draw_icon-Runs a.screen d.clip v some c 12 d.buffer a.icons area.x area.y 0 glyph color
          known (omega arith) high in
      (record d { color = color; buffer = buf }, rw e refl, c, refl)
  run_command-Runs cmd d (char_sound glyph color area known modest) meets c =
      let (buf, e) =
        do_draw_char-Runs a.screen d.clip v some c d.buffer a.font area.x area.y glyph color
          known in
      (record d { color = color; buffer = buf }, rw e refl, c, refl)
  run_command-Runs cmd d (rect_sound glyph color area modest) meets c =
      let sa = modest-IsSmall area modest in
      let sr = on.small in
      let both : Rect = record {
        x = larger region.x area.x;
        y = larger region.y area.y;
        w = extent region.x region.w area.x area.w;
        h = extent region.y region.h area.y area.h;
      } in
      let (buf, e) =
        do_draw_rect-Runs a.screen d.clip v some c d.buffer both color
          (meet-IsSmall region area m modest) in
      (
        record d { color = color; buffer = buf },
        rw
            (
              meet-ok region.x region.w area.x area.w sr.x sr.w sa.x sa.w,
              meet-ok region.y region.h area.y area.h sr.y sr.h sa.y sa.h,
              e,
            )
            refl,
        c,
        refl,
      )
  run_command-Runs cmd d (clip_sound glyph color area lies) meets c =
      (record d { clip = area; color = color }, refl, lies, refl)

  pub run_commands-Runs :
      (commands : List Command) (d : Drawing)
      → AllSound a commands
      → IsClip a.screen d.clip
      → RunsTo a.screen d.video (run_commands a region commands d)
  unfolding run_commands rect_overlap
  run_commands-Runs [] d h c = (d, refl, c, refl)
  run_commands-Runs (cmd ∷ commands) d (h, hs) c =
      let (overlaps, e, to_across) =
        rect_overlap-Runs region cmd.area on.small (sound-IsSmall a cmd h) in
      elim (Bool-cases overlaps) [
        | inl hit ↦
            let (d1, f, c1, same) = run_command-Runs cmd d h (to_across hit) c in
            let (d2, g, c2, same') = run_commands-Runs commands d1 hs c1 in
            (d2, rw (run_commands, e, hit, f) g, c2, same' ∙ same)
        | inr miss ↦
            let (d1, g, c1, same) = run_commands-Runs commands d hs c in
            (d1, rw (run_commands, e, miss) g, c1, same)
      ]
