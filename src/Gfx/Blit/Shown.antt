-- ===== src/Gfx/Blit/Shown.antt =====
-- What the screen shows after a region has been copied.
use umka_os.Base.{
  ℕ, zero, suc, ◌+◌, ◌*◌, ◌^◌, ◌≤◌, ◌<◌, ◌≡◌, ◌≢◌, ◌⊎◌, refl, ◌∙◌, ap, ap₂, inl, inr, ◌&&◌, arith,
  ◌==◌, ltb, leb, if◌then◌else◌, eq-cases, ==-false, ==_refl, update, ok,
}
use umka_os.Base.Int.{pos, ◌+ℤ◌, pos-+ℤ, checked}
use umka_os.Gfx.Rect.Meet.{checked-Within}
use umka_os.Gfx.Draw.{Screen, Buffer}
use umka_os.Gfx.Draw.Pixel.{IsScreen, in_rect, same_pixel}
use umka_os.Gfx.Blit.{
  Video, to_uint32, pixel_index, channel, poke_byte, peek, blit_pixel, blit_row, blit_rows, blit,
}

-- The three bytes of the pixel `i`.
abbrev pub painted : Buffer → Video → ℕ → Video
painted buf video i =
    update (update (update video (i * 3) (channel 0 (buf i))) (i * 3 + 1) (channel 1 (buf i)))
      (i * 3 + 2) (channel 2 (buf i))

pixel_index-lt :
    (s : Screen) (x y : ℕ)
    → IsScreen s
    → x < s.width
    → y < s.height
    → (x + y * s.width < s.width * s.height) × (x + y * s.width < 2 ^ 30 + 2 ^ 15)
pixel_index-lt s x y v hx hy =
    let wide : y * s.width ≤ y * 2 ^ 15 = let w = v.width in grind arith in
    let inside : x + y * s.width < s.width * s.height = grind arith in
    (inside, omega (arith, v.width, v.height))

blit_pixel-ok :
    (s : Screen) (buf : Buffer) (video : Video) (x y : ℕ)
    → IsScreen s
    → x < s.width
    → y < s.height
    → blit_pixel s buf video (pos x) (pos y) ≡ ok (painted buf video (x + y * s.width))
unfolding blit_pixel pixel_index to_uint32 peek poke_byte
blit_pixel-ok s buf video x y v hx hy =
    let (inside, small) = pixel_index-lt s x y v hx hy in
    let i = x + y * s.width in ground (arith, v.width, v.height)

painted-channel :
    (buf : Buffer) (video : Video) (i l k : ℕ)
    → k < 3
    → painted buf video i (l * 3 + k) ≡ (if l == i then channel k (buf l) else video (l * 3 + k))
unfolding channel update
painted-channel buf video i l k h = ground arith

-- A byte of the pixel (a, b).
module _ (s : Screen) (buf : Buffer) (a b k : ℕ) (v : IsScreen s) (ha : a < s.width)
    (hk : k < 3) where
  abbrev pub byte_of : Video → ℕ
  byte_of video = video ((a + b * s.width) * 3 + k)

  -- The byte after a rectangle of pixels has been copied.
  abbrev shown : Video → ℕ → ℕ → ℕ → ℕ → ℕ
  shown video x n y rows =
      if (leb x a && ltb a (x + n)) && (leb y b && ltb b (y + rows))
      then channel k (buf (a + b * s.width))
      else byte_of video

  shown-left :
      (video : Video) (x n y : ℕ)
      → x < s.width
      → shown (painted buf video (x + y * s.width)) (x + 1) n y 1 ≡ shown video x (suc n) y 1
  shown-left video x n y hx =
      let here = painted-channel buf video (x + y * s.width) (a + b * s.width) k hk in
      elim (eq-cases (a + b * s.width) (x + y * s.width)) [
        | inl e ↦
            let (p, q) = same_pixel s.width a b x y ha hx e in
            let now : byte_of (painted buf video (x + y * s.width))
                ≡ channel k (buf (a + b * s.width)) =
              here ∙ rw (e, ==_refl (x + y * s.width)) refl in
            ground arith
        | inr ne ↦
            let now : byte_of (painted buf video (x + y * s.width)) ≡ byte_of video =
              here ∙ rw (==-false (a + b * s.width) (x + y * s.width) ne) refl in
            let apart : (a ≢ x) ⊎ (b ≢ y) = elim (eq-cases a x) [
              | inl p ↦ inr (λ q. ne (ap₂ (λ k l. k + l * s.width) p q))
              | inr p ↦ inl p
            ] in
            ground arith
      ]

  blit_row-shown :
      (n : ℕ) (video : Video) (x y j : ℕ)
      → x + j + n ≤ s.width
      → y < s.height
      → (video' : Video) × (blit_row n s buf video (pos x) (pos y) j ≡ ok video')
        × (byte_of video' ≡ shown video (x + j) n y 1)
  unfolding blit_row
  blit_row-shown zero video x y j hx hy = (video, refl, ground arith)
  blit_row-shown (suc n) video x y j hx hy =
      let video1 = painted buf video (x + j + y * s.width) in
      let (video', e, f) = blit_row-shown n video1 x y (j + 1) (omega arith) hy in
      let next : x + (j + 1) ≡ x + j + 1 = omega arith in
      (
        video',
        rw (pos-+ℤ x j, blit_pixel-ok s buf video (x + j) y v (omega arith) hy) e,
        f ∙ ap (λ l. shown video1 l n y 1) next ∙ shown-left video (x + j) n y (omega arith),
      )

  shown-top :
      (video video' : Video) (x n y rows : ℕ)
      → byte_of video' ≡ shown video x n y 1
      → shown video' x n (y + 1) rows ≡ shown video x n y (suc rows)
  shown-top video video' x n y rows e = ground arith

  checked-side : (x n : ℕ) → x + n < 2 ^ 15 → checked (pos x +ℤ pos n) ≡ ok (pos (x + n))
  checked-side x n h =
      rw (pos-+ℤ x n)
        (checked-Within (pos (x + n)) (2 ^ 15) (omega arith) (omega arith, omega arith))

  blit_rows-shown :
      (rows n : ℕ) (video : Video) (x y h i : ℕ)
      → x + n ≤ s.width
      → y + i + rows ≤ s.height
      → (video' : Video) × (blit_rows rows s buf video
            (record { x = pos x; y = pos y; w = pos n; h = pos h })
            i
          ≡ ok video')
        × (byte_of video' ≡ shown video x n (y + i) rows)
  unfolding blit_rows
  blit_rows-shown zero n video x y h i hx hy = (video, refl, ground arith)
  blit_rows-shown (suc rows) n video x y h i hx hy =
      let (video1, e, f) = blit_row-shown n video x (y + i) 0 (omega arith) (omega arith) in
      let start : x + 0 ≡ x = omega arith in
      let next : y + (i + 1) ≡ y + i + 1 = omega arith in
      let (video2, g, l) = blit_rows-shown rows n video1 x y h (i + 1) hx (omega arith) in
      (
        video2,
        rw (checked-side x n (omega (arith, v.width)), pos-+ℤ y i, e) g,
        l
            ∙ ap (λ m. shown video1 x n m rows) next
            ∙ shown-top video video1 x n (y + i) rows
                (f ∙ ap (λ m. shown video m n (y + i) 1) start),
      )

  -- On a screen, copying a region that lies on it and has no negative size ends without a fault and
  -- writes only to video memory: a byte of a pixel in the region becomes the byte of its color in the
  -- back buffer, and a byte of any other pixel stays.
  pub blit-in_rect :
      (video : Video) (x y w h : ℕ)
      → x + w ≤ s.width
      → y + h ≤ s.height
      → (video' : Video) × (blit s buf video (record { x = pos x; y = pos y; w = pos w; h = pos h })
          ≡ ok video')
        × (byte_of video' ≡ (
            if in_rect (record { x = pos x; y = pos y; w = pos w; h = pos h }) (pos a) (pos b)
            then channel k (buf (a + b * s.width))
            else byte_of video))
  unfolding blit in_rect
  blit-in_rect video x y w h hx hy =
      let (video', e, f) = blit_rows-shown h w video x y h 0 hx (omega arith) in
      let start : y + 0 ≡ y = omega arith in
      (
        video',
        rw (checked-side y h (omega (arith, v.height))) e,
        f ∙ ap (λ m. shown video x w m h) start ∙ rw (pos-+ℤ x w, pos-+ℤ y h) (ground arith),
      )
