-- ===== src/Gfx/Queue/Safe.antt =====
-- A whole frame: `gfxSwap` on a sound queue.
use umka_os.Base.{
  ℕ, zero, suc, ◌+◌, ◌-◌, ◌*◌, ◌≤◌, ◌<◌, ◌≡◌, refl, inl, inr, Bool, not, List, [], ◌∷◌, ◌++◌, map,
  false, ◌∙◌, arith, ◌==◌, ltb, Bool-cases, ltb→lt, ok,
}
use umka_os.Base.Int.{pos, +ℤ_parts}
use umka_os.Gfx.Rect.{Rect}
use umka_os.Gfx.Cells.{cells_x, cells_y, Hashes, Region, run_end, row_regions, swap_row}
use umka_os.Gfx.Cells.Runs.{run_end-IsRun}
use umka_os.Gfx.Cells.Marks.{mark_command-marked}
use umka_os.Gfx.Draw.{Screen}
use umka_os.Gfx.Draw.Pixel.{IsClip, IsScreen, in_rect}
use umka_os.Gfx.Queue.{
  Command, Bytes, Assets, Drawing, Frame, redraw_regions, cell_rect, all_regions, mark_commands,
  swap,
}
use umka_os.Gfx.Queue.Sound.{IsModest, modest-IsSmall, pos-Within, sound-IsSmall, AllSound, IsQueue}
use umka_os.Gfx.Queue.Swap.{swapped}
use umka_os.Gfx.Queue.Redraw.Copy.{Runs}
use umka_os.Gfx.Queue.Shows.{block, redraw_region-in_rect}

abbrev pub AllOf : {A : Type 0} → (A → Type 0) → List A → Type 0
AllOf P [] = Unit
AllOf P (x ∷ xs) = P x × AllOf P xs

pub AllOf-map :
    {A B : Type 0} (P : A → Type 0) (Q : B → Type 0) (f : A → B)
    → ((x : A) → P x → Q (f x))
    → (xs : List A) → AllOf P xs
    → AllOf Q (map f xs)
AllOf-map P Q f to [] h = tt
AllOf-map P Q f to (x ∷ xs) (h, hs) = (to x h, AllOf-map P Q f to xs hs)

pub AllOf-append :
    {A : Type 0} (P : A → Type 0) (xs ys : List A) → AllOf P xs → AllOf P ys → AllOf P (xs ++ ys)
AllOf-append P [] ys h g = g
AllOf-append P (x ∷ xs) ys (h, hs) g = (h, AllOf-append P xs ys hs g)

-- A run of cells inside a row.
abbrev pub InRow : Region → Type 0
InRow (start, n) = start + n ≤ cells_x

row_regions-InRow : (n : ℕ) (dirty : ℕ → Bool) (start : ℕ) → AllOf InRow (row_regions n dirty start)
unfolding row_regions
row_regions-InRow zero dirty start = tt
row_regions-InRow (suc n) dirty start = elim (Bool-cases (ltb start cells_x)) [
  | inr e ↦ rw (row_regions, e) tt
  | inl e ↦
      let h = ltb→lt start cells_x e in
      let x = run_end (cells_x - start) dirty start in
      let r = run_end-IsRun (cells_x - start) dirty start cells_x (omega arith) in
      let rest = row_regions-InRow n dirty (x + 1) in
      elim (Bool-cases (start == x)) [
        | inl empty ↦ rw (row_regions, e, empty) rest
        | inr run ↦ rw (row_regions, e, run) (omega (arith, r.start, r.bound), rest)
      ]
]

-- A region that lies on the screen.
pub data OnScreen (s : Screen) : Rect → Type 0 where
  on_screen :
      (x y w h : ℕ)
      → IsClip s (block x y w h)
      → IsModest (block x y w h)
      → OnScreen s (block x y w h)

module _ (s : Screen) (wide : 1024 ≤ s.width) (high : 768 ≤ s.height) where
  cell_rect-OnScreen :
      (y : ℕ) (region : Region) → y < cells_y → InRow region → OnScreen s (cell_rect y region)
  unfolding cell_rect
  cell_rect-OnScreen y (start, n) hy h =
      let m : IsModest (cell_rect y (start, n)) = record {
        x = pos-Within (start * 16) (omega arith);
        y = pos-Within (y * 16) (omega arith);
        w = pos-Within (16 * n) (omega arith);
        h = pos-Within 16 (omega arith);
      } in
      on_screen (start * 16) (y * 16) (16 * n) 16
        (record {
          small = modest-IsSmall (cell_rect y (start, n)) m;
          left = omega arith;
          top = omega arith;
          right = omega (arith, +ℤ_parts (pos (start * 16)) (pos (16 * n)));
          bottom = omega (arith, +ℤ_parts (pos (y * 16)) (pos 16));
        })
        m

  pub all_regions-OnScreen :
      (n : ℕ) (hashes1 hashes2 : Hashes) (y : ℕ)
      → y + n ≤ cells_y
      → AllOf (OnScreen s) (all_regions n hashes1 hashes2 y)
  unfolding all_regions swap_row
  all_regions-OnScreen zero hashes1 hashes2 y h = tt
  all_regions-OnScreen (suc n) hashes1 hashes2 y h =
      let dirty : ℕ → Bool = λ x. not (hashes1 (x + y * cells_x) == hashes2 (x + y * cells_x)) in
      AllOf-append (OnScreen s) (map (cell_rect y) (row_regions cells_x dirty 0))
        (all_regions n hashes1 hashes2 (y + 1))
        (AllOf-map InRow (OnScreen s) (cell_rect y) (λ r. cell_rect-OnScreen y r (omega arith))
          (row_regions cells_x dirty 0) (row_regions-InRow cells_x dirty 0))
        (all_regions-OnScreen n hashes1 hashes2 (y + 1) (omega arith))

pub mark_commands-Runs :
    (a : Assets) (bytes : Bytes) (hashes : Hashes) (commands : List Command)
    → AllSound a commands
    → Runs (mark_commands bytes hashes commands)
unfolding mark_commands
mark_commands-Runs a bytes hashes [] h = (hashes, refl)
mark_commands-Runs a bytes hashes (cmd ∷ commands) (h, hs) =
    let (hashes1, e, m) =
      mark_command-marked hashes (bytes 0 cmd) cmd.area 0 0 (sound-IsSmall a cmd h) (omega arith) in
    let (hashes2, f) = mark_commands-Runs a (λ i. bytes (suc i)) hashes1 commands hs in
    (hashes2, rw e f)

-- The pixel (a, b) is not in the region.
abbrev pub Off : ℕ → ℕ → Rect → Type 0
Off a b region = in_rect region (pos a) (pos b) ≡ false

-- The regions are drawn again without a fault, and what none of them contains stays on the screen.
pub redraw_regions-Off :
    (assets : Assets) (a b k : ℕ) (commands : List Command) (regions : List Rect) (d : Drawing)
    → IsScreen assets.screen
    → a < assets.screen.width
    → k < 3
    → AllSound assets commands
    → AllOf (OnScreen assets.screen) regions
    → (d' : Drawing) × (redraw_regions assets commands regions d ≡ ok d')
      × (AllOf (Off a b) regions
          → d'.video ((a + b * assets.screen.width) * 3 + k)
            ≡ d.video ((a + b * assets.screen.width) * 3 + k))
unfolding redraw_regions
redraw_regions-Off assets a b k commands [] d v ha hk h all = (d, refl, λ off. refl)
redraw_regions-Off assets a b k commands (region ∷ regions) d v ha hk h
      (on_screen x y w h' c m, all) =
    let (d1, e, shown) = redraw_region-in_rect assets x y w h' a b k commands d v c m h ha hk in
    let (d2, f, kept) = redraw_regions-Off assets a b k commands regions d1 v ha hk h all in
    (d2, rw e f, λ (off, offs). kept offs ∙ shown ∙ rw off refl)

-- On a screen of at least 1024 by 768 pixels, with a sound queue that fits its array and with any
-- hashes, `gfxSwap` ends without a fault, so that it writes only inside the table of hashes, the
-- back buffer and video memory and overflows nowhere, and leaves an empty queue.
pub swap-Runs :
    (a : Assets) (bytes : Bytes) (f : Frame)
    → IsScreen a.screen
    → 1024 ≤ a.screen.width
    → 768 ≤ a.screen.height
    → IsQueue a f.gfx
    → (f' : Frame) × (swap a bytes f ≡ ok f') × (f'.gfx.commands ≡ [])
unfolding swap
swap-Runs a bytes f v wide high q =
    let (hashes, e) = mark_commands-Runs a bytes f.hashes1 f.gfx.commands q.sound in
    let on = all_regions-OnScreen a.screen wide high cells_y hashes f.hashes2 0 (omega arith) in
    let (d, g, kept) =
      redraw_regions-Off a 0 0 0 f.gfx.commands (all_regions cells_y hashes f.hashes2 0)
        (record { clip = f.clip; color = f.gfx.color; buffer = f.buffer; video = f.video }) v
        (omega arith) (omega arith) q.sound on in
    (swapped hashes d, rw (e, g) refl, refl)
