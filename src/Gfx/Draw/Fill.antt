-- ===== src/Gfx/Draw/Fill.antt =====
-- Characters and rectangles stay inside the clip.
use umka_os.Base.{
  ℕ, zero, suc, ◌+◌, ◌*◌, ◌^◌, ◌≤◌, ◌<◌, ◌≡◌, ◌≢◌, ◌⊎◌, refl, ◌∙◌, ap, ap₂, inl, inr, false, ◌&&◌,
  arith, ◌==◌, ltb, leb, if◌then◌else◌, Bool-cases, eq-cases, lt→ltb, update, update_self,
  update_other, ok,
}
use Prim.Native.Nat.{bit_and}
use umka_os.Base.Int.{ℤ, pos, negsuc, pos_part, ◌+ℤ◌, ◌≤ℤ◌, +ℤ_parts, pos-+ℤ}
use umka_os.Gfx.Rect.{Rect, larger, rect_intersect}
use umka_os.Gfx.Rect.Meet.{IsSmall, meet-ok, extent, extents-Inside, le-larger, extent-le}
use umka_os.Gfx.Draw.{
  Screen, Buffer, fill_row, fill_rows, do_draw_rect, draw_bits, draw_rows, do_draw_char,
}
use umka_os.Gfx.Draw.Pixel.{
  IsClip, IsScreen, plot-ok, in_rect, in_rect-both, set_pixel-outside, same_pixel,
}

module _ (s : Screen) (clip : Rect) (color a b : ℕ) (v : IsScreen s) (c : IsClip s clip)
    (ha : a < s.width) (out : in_rect clip (pos a) (pos b) ≡ false) where
  draw_bits-outside :
      (n : ℕ) (buf : Buffer) (x y : ℤ) (j row : ℕ)
      → (buf' : Buffer) × (draw_bits n s clip buf x y j row color ≡ ok buf')
        × (buf' (a + b * s.width) ≡ buf (a + b * s.width))
  unfolding draw_bits
  draw_bits-outside zero buf x y j row = (buf, refl, refl)
  draw_bits-outside (suc n) buf x y j row = elim (Bool-cases (bit_and row (2 ^ j) == 0)) [
    | inl e ↦
        let (buf', f, same) = draw_bits-outside n buf x y (j + 1) row in
        (buf', rw (draw_bits, e) f, same)
    | inr e ↦
        let (buf1, f, same) = set_pixel-outside s clip buf (x +ℤ pos j) y color a b v c ha out in
        let (buf2, g, same') = draw_bits-outside n buf1 x y (j + 1) row in
        (buf2, rw (draw_bits, e, f) g, same' ∙ same)
  ]

  draw_rows-outside :
      (n : ℕ) (buf : Buffer) (x y : ℤ) (i : ℕ) (glyph : ℕ → ℕ)
      → (buf' : Buffer) × (draw_rows n s clip buf x y i glyph color ≡ ok buf')
        × (buf' (a + b * s.width) ≡ buf (a + b * s.width))
  unfolding draw_rows
  draw_rows-outside zero buf x y i glyph = (buf, refl, refl)
  draw_rows-outside (suc n) buf x y i glyph =
      let (buf1, f, same) = draw_bits-outside 8 buf x (y +ℤ pos i) 0 (glyph i) in
      let (buf2, g, same') = draw_rows-outside n buf1 x y (i + 1) glyph in
      (buf2, rw f g, same' ∙ same)

  -- On a screen and with a clip that lies on it, drawing one of the 128 characters anywhere never
  -- writes outside of the back buffer, and changes no pixel outside of the clip.
  pub do_draw_char-outside :
      (buf : Buffer) (font : ℕ → ℕ → ℕ) (x y : ℤ) (glyph : ℕ)
      → glyph < 128
      → (buf' : Buffer) × (do_draw_char s clip buf font x y glyph color ≡ ok buf')
        × (buf' (a + b * s.width) ≡ buf (a + b * s.width))
  unfolding do_draw_char
  do_draw_char-outside buf font x y glyph h =
      let (buf', f, same) = draw_rows-outside 8 buf x y 0 (font glyph) in
      (buf', rw (lt→ltb glyph 128 h) f, same)

module _ (s : Screen) (color a b : ℕ) (v : IsScreen s) (ha : a < s.width) where
  -- The pixel after a rectangle of pixels has been filled.
  abbrev filled : Buffer → ℕ → ℕ → ℕ → ℕ → ℕ
  filled buf x n y rows =
      if (leb x a && ltb a (x + n)) && (leb y b && ltb b (y + rows))
      then color
      else buf (a + b * s.width)

  filled-left :
      (buf : Buffer) (x n y : ℕ)
      → x < s.width
      → filled (update buf (x + y * s.width) color) (x + 1) n y 1 ≡ filled buf x (suc n) y 1
  filled-left buf x n y hx = elim (eq-cases (a + b * s.width) (x + y * s.width)) [
    | inl e ↦
        let (p, q) = same_pixel s.width a b x y ha hx e in
        let here : update buf (x + y * s.width) color (a + b * s.width) ≡ color =
          ap (update buf (x + y * s.width) color) e ∙ update_self buf (x + y * s.width) color in
        ground arith
    | inr ne ↦
        let there : update buf (x + y * s.width) color (a + b * s.width) ≡ buf (a + b * s.width) =
          update_other buf (x + y * s.width) color (a + b * s.width) ne in
        let apart : (a ≢ x) ⊎ (b ≢ y) = elim (eq-cases a x) [
          | inl p ↦ inr (λ q. ne (ap₂ (λ k l. k + l * s.width) p q))
          | inr p ↦ inl p
        ] in
        ground arith
  ]

  fill_row-filled :
      (n : ℕ) (buf : Buffer) (x y j : ℕ)
      → x + j + n ≤ s.width
      → y < s.height
      → (buf' : Buffer) × (fill_row n s buf (pos x) (pos y) j color ≡ ok buf')
        × (buf' (a + b * s.width) ≡ filled buf (x + j) n y 1)
  unfolding fill_row
  fill_row-filled zero buf x y j hx hy = (buf, refl, ground arith)
  fill_row-filled (suc n) buf x y j hx hy =
      let (buf', e, f) =
        fill_row-filled n (update buf (x + j + y * s.width) color) x y (j + 1) (omega arith) hy in
      let next : x + (j + 1) ≡ x + j + 1 = omega arith in
      (
        buf',
        rw (pos-+ℤ x j, plot-ok s buf (x + j) y color v (omega arith) hy) e,
        f
            ∙ ap (λ k. filled (update buf (x + j + y * s.width) color) k n y 1) next
            ∙ filled-left buf (x + j) n y (omega arith),
      )

  filled-top :
      (buf buf' : Buffer) (x n y rows : ℕ)
      → buf' (a + b * s.width) ≡ filled buf x n y 1
      → filled buf' x n (y + 1) rows ≡ filled buf x n y (suc rows)
  filled-top buf buf' x n y rows e = ground arith

  fill_rows-filled :
      (rows n : ℕ) (buf : Buffer) (x y i : ℕ)
      → x + n ≤ s.width
      → y + i + rows ≤ s.height
      → (buf' : Buffer) × (fill_rows rows n s buf (pos x) (pos y) i color ≡ ok buf')
        × (buf' (a + b * s.width) ≡ filled buf x n (y + i) rows)
  unfolding fill_rows
  fill_rows-filled zero n buf x y i hx hy = (buf, refl, ground arith)
  fill_rows-filled (suc rows) n buf x y i hx hy =
      let (buf1, e, f) = fill_row-filled n buf x (y + i) 0 (omega arith) (omega arith) in
      let start : x + 0 ≡ x = omega arith in
      let next : y + (i + 1) ≡ y + i + 1 = omega arith in
      let (buf2, g, k) = fill_rows-filled rows n buf1 x y (i + 1) hx (omega arith) in
      (
        buf2,
        rw (pos-+ℤ y i, e) g,
        k
            ∙ ap (λ l. filled buf1 x n l rows) next
            ∙ filled-top buf buf1 x n (y + i) rows (f ∙ ap (λ l. filled buf l n (y + i) 1) start),
      )

  fill_rows-none :
      (rows : ℕ) (buf : Buffer) (x y : ℤ) (i : ℕ) → fill_rows rows 0 s buf x y i color ≡ ok buf
  unfolding fill_rows fill_row
  fill_rows-none zero buf x y i = refl
  fill_rows-none (suc rows) buf x y i = fill_rows-none rows buf x y (i + 1)

  abbrev Filled : Buffer → ℤ → ℤ → ℤ → ℤ → Type 0
  Filled buf x y w h =
      (buf' : Buffer) × (fill_rows (pos_part h) (pos_part w) s buf x y 0 color ≡ ok buf')
      × (buf' (a + b * s.width) ≡ (
          if in_rect (record { x = x; y = y; w = w; h = h }) (pos a) (pos b)
          then color
          else buf (a + b * s.width)))

  Filled-flat : (buf : Buffer) (x y w h : ℤ) → h ≤ℤ pos 0 → Filled buf x y w h
  unfolding in_rect fill_rows ◌+ℤ◌
  Filled-flat buf x y w (pos zero) e = (buf, refl, ground arith)
  Filled-flat buf x y w (pos (suc n)) e = absurd (omega arith)
  Filled-flat buf x y w (negsuc n) e = (buf, refl, ground arith)

  Filled-thin : (buf : Buffer) (x y w h : ℤ) → w ≤ℤ pos 0 → Filled buf x y w h
  unfolding in_rect ◌+ℤ◌
  Filled-thin buf x y (pos zero) h e = (buf, fill_rows-none (pos_part h) buf x y 0, ground arith)
  Filled-thin buf x y (pos (suc n)) h e = absurd (omega arith)
  Filled-thin buf x y (negsuc n) h e = (buf, fill_rows-none (pos_part h) buf x y 0, ground arith)

  filled-in_rect :
      (buf : Buffer) (x n y m : ℕ)
      → filled buf x n y m ≡ (
          if in_rect (record { x = pos x; y = pos y; w = pos n; h = pos m }) (pos a) (pos b)
          then color
          else buf (a + b * s.width))
  unfolding in_rect
  filled-in_rect buf x n y m = rw (pos-+ℤ x n, pos-+ℤ y m) (ground arith)

  -- The pixel after a rectangle has been filled.
  fill_rows-Filled :
      (buf : Buffer) (x y w h : ℤ)
      → pos 0 ≤ℤ x
      → pos 0 ≤ℤ y
      → x +ℤ w ≤ℤ pos s.width
      → y +ℤ h ≤ℤ pos s.height
      → Filled buf x y w h
  fill_rows-Filled buf (negsuc x) y w h px py wide high = absurd (omega arith)
  fill_rows-Filled buf (pos x) (negsuc y) w h px py wide high = absurd (omega arith)
  fill_rows-Filled buf (pos x) (pos y) (negsuc n) h px py wide high =
      Filled-thin buf (pos x) (pos y) (negsuc n) h (omega arith)
  fill_rows-Filled buf (pos x) (pos y) (pos n) (negsuc m) px py wide high =
      Filled-flat buf (pos x) (pos y) (pos n) (negsuc m) (omega arith)
  fill_rows-Filled buf (pos x) (pos y) (pos n) (pos m) px py wide high =
      let (buf', e, f) =
        fill_rows-filled m n buf x y 0 (omega (arith, +ℤ_parts (pos x) (pos n)))
          (omega (arith, +ℤ_parts (pos y) (pos m))) in
      let start : y + 0 ≡ y = omega arith in
      (buf', e, f ∙ ap (λ l. filled buf x n l m) start ∙ filled-in_rect buf x n y m)

  -- On a screen, with a clip that lies on it and a rectangle whose numbers are small,
  -- `gfxDoDrawRect` never writes outside of the back buffer; it gives the color to the pixels that
  -- are both in the clip and in the rectangle, and changes no other.
  pub do_draw_rect-in_rect :
      (clip : Rect) (buf : Buffer) (area : Rect)
      → IsClip s clip
      → IsSmall area
      → (buf' : Buffer) × (do_draw_rect s clip buf area color ≡ ok buf')
        × (buf' (a + b * s.width) ≡ (
            if in_rect clip (pos a) (pos b) && in_rect area (pos a) (pos b)
            then color
            else buf (a + b * s.width)))
  unfolding do_draw_rect rect_intersect
  do_draw_rect-in_rect clip buf area c small =
      let (buf', e, f) =
        fill_rows-Filled buf (larger clip.x area.x) (larger clip.y area.y)
          (extent clip.x clip.w area.x area.w) (extent clip.y clip.h area.y area.h)
          (omega (arith, (le-larger clip.x area.x).0, c.left))
          (omega (arith, (le-larger clip.y area.y).0, c.top))
          (omega (arith, extent-le clip.x clip.w area.x area.w, c.right))
          (omega (arith, extent-le clip.y clip.h area.y area.h, c.bottom)) in
      let meet : Rect = record {
        x = larger clip.x area.x;
        y = larger clip.y area.y;
        w = extent clip.x clip.w area.x area.w;
        h = extent clip.y clip.h area.y area.h;
      } in
      (
        buf',
        rw
            (
              meet-ok clip.x clip.w area.x area.w c.small.x c.small.w small.x small.w,
              meet-ok clip.y clip.h area.y area.h c.small.y c.small.h small.y small.h,
            )
            e,
        f
            ∙ ap (λ k. if k then color else buf (a + b * s.width))
                (in_rect-both meet clip area (pos a) (pos b)
                  (extents-Inside clip area (pos a) (pos b))),
      )
