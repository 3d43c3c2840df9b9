-- ===== src/Gfx/Queue/Shows.antt =====
-- One region of the screen is drawn again: what the screen shows afterwards.
use umka_os.Base.{
  ℕ, zero, suc, ◌/◌, ◌%◌, ◌^◌, ◌+◌, ◌*◌, ◌<◌, ◌≡◌, refl, ◌∙◌, ap, List, arith, if◌then◌else◌, ok,
}
use umka_os.Base.Int.{pos, +ℤ_parts}
use umka_os.Gfx.Rect.{Rect}
use umka_os.Gfx.Draw.Pixel.{IsClip, IsScreen, in_rect}
use umka_os.Gfx.Blit.{channel}
use umka_os.Gfx.Blit.Shown.{blit-in_rect}
use umka_os.Gfx.Queue.{Command, Assets, Drawing, redraw_region, screen_rect}
use umka_os.Gfx.Queue.Sound.{IsModest, screen_rect-IsClip, AllSound}
use umka_os.Gfx.Queue.Redraw.{run_commands-Runs}

-- A region of the screen, as `gfxSwap` makes them.
abbrev pub block : ℕ → ℕ → ℕ → ℕ → Rect
block x y w h = record { x = pos x; y = pos y; w = pos w; h = pos h }

channel-byte : (k color : ℕ) → k < 3 → channel k color ≡ color / 256 ^ k % 256
unfolding channel
channel-byte zero color h = omega arith
channel-byte (suc zero) color h = omega arith
channel-byte (suc (suc zero)) color h = omega arith
channel-byte (suc (suc (suc k))) color h = absurd (omega arith)

-- On a screen, with a region that lies on it and has numbers from 0 to 2 ^ 27, and with a queue of
-- sound commands, `gfxRedrawRegion` overflows nowhere and never leaves the back buffer and video
-- memory. Afterwards the byte `k` of a pixel in the region is that of its color in the back buffer,
-- the lowest first, and every byte of another pixel is on the screen as before.
pub redraw_region-in_rect :
    (assets : Assets) (x y w h a b k : ℕ) (commands : List Command) (d : Drawing)
    → IsScreen assets.screen
    → IsClip assets.screen (block x y w h)
    → IsModest (block x y w h)
    → AllSound assets commands
    → a < assets.screen.width
    → k < 3
    → (d' : Drawing) × (redraw_region assets commands (block x y w h) d ≡ ok d')
      × (d'.video ((a + b * assets.screen.width) * 3 + k) ≡ (
          if in_rect (block x y w h) (pos a) (pos b)
          then d'.buffer (a + b * assets.screen.width) / 256 ^ k % 256
          else d.video ((a + b * assets.screen.width) * 3 + k)))
unfolding redraw_region
redraw_region-in_rect assets x y w h a b k commands d v on m sound ha hk =
    let s = assets.screen in
    let (d1, e, c, same) =
      run_commands-Runs assets (block x y w h) v (omega arith) on m w refl commands
        (record d { clip = screen_rect s }) sound (screen_rect-IsClip s v) in
    let (video, f, shown) =
      blit-in_rect s d1.buffer a b k v ha hk d1.video x y w h
        (omega (arith, on.right, +ℤ_parts (pos x) (pos w)))
        (omega (arith, on.bottom, +ℤ_parts (pos y) (pos h))) in
    (
      record d1 { video = video },
      rw (e, f) refl,
      shown
          ∙ ap
              (λ byte.
                if in_rect (block x y w h) (pos a) (pos b)
                then byte
                else d1.video ((a + b * s.width) * 3 + k))
              (channel-byte k (d1.buffer (a + b * s.width)) hk)
          ∙ ap
              (λ before.
                if in_rect (block x y w h) (pos a) (pos b)
                then d1.buffer (a + b * s.width) / 256 ^ k % 256
                else before ((a + b * s.width) * 3 + k))
              same,
    )
