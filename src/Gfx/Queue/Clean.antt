-- ===== src/Gfx/Queue/Clean.antt =====
-- Cells whose hash has not changed keep their pixels on the screen.
use umka_os.Base.{
  ℕ, zero, suc, ◌+◌, ◌*◌, ◌/◌, ◌≤◌, ◌<◌, ◌≡◌, ◌≢◌, ◌⊎◌, refl, ◌∙◌, inl, inr, true, false, ◌&&◌,
  List, [], ◌∷◌, arith, ◌==◌, ltb, leb, Bool-cases, eq-cases, ==_refl, map, ok,
}
use umka_os.Base.Int.{pos-+ℤ}
use umka_os.Gfx.Cells.{cells_x, cells_y, Hashes, Region, swap_row}
use umka_os.Gfx.Cells.Runs.{covering, swap_row-covering}
use umka_os.Gfx.Draw.Pixel.{IsScreen, in_rect}
use umka_os.Gfx.Queue.{Bytes, Assets, Frame, cell_rect, all_regions, mark_commands, swap}
use umka_os.Gfx.Queue.Sound.{IsQueue}
use umka_os.Gfx.Queue.Swap.{swapped}
use umka_os.Gfx.Queue.Safe.{
  AllOf, AllOf-map, AllOf-append, Off, redraw_regions-Off, all_regions-OnScreen,
}

-- The cell is not in the run.
abbrev Outside : ℕ → Region → Type 0
Outside z (start, n) = (leb start z && ltb z (start + n)) ≡ false

covering-zero : (regions : List Region) (z : ℕ) → covering regions z ≡ 0 → AllOf (Outside z) regions
unfolding covering
covering-zero [] z h = tt
covering-zero ((start, n) ∷ regions) z h = elim (Bool-cases (leb start z && ltb z (start + n))) [
  | inl e ↦ absurd (let h' = rw (covering, e) at h in omega arith)
  | inr e ↦ (e, covering-zero regions z (let h' = rw (covering, e) at h in h'))
]

cell_rect-Off :
    (y a b : ℕ) (region : Region)
    → (y ≢ b / 16) ⊎ Outside (a / 16) region
    → Off a b (cell_rect y region)
unfolding cell_rect in_rect
cell_rect-Off y a b (start, n) h =
    rw (pos-+ℤ (start * 16) (16 * n), pos-+ℤ (y * 16) 16) (ground arith)

row-Off :
    (hashes1 hashes2 : Hashes) (y a b : ℕ)
    → a / 16 < cells_x
    → hashes1 (a / 16 + b / 16 * cells_x) ≡ hashes2 (a / 16 + b / 16 * cells_x)
    → AllOf (Off a b) (map (cell_rect y) (swap_row hashes1 hashes2 y))
row-Off hashes1 hashes2 y a b h same = elim (eq-cases y (b / 16)) [
  | inr other ↦
      AllOf-map (λ r. Unit) (Off a b) (cell_rect y) (λ r u. cell_rect-Off y a b r (inl other))
        (swap_row hashes1 hashes2 y) (AllOf-all (swap_row hashes1 hashes2 y))
  | inl row ↦
      let clean : (hashes1 (a / 16 + y * cells_x) == hashes2 (a / 16 + y * cells_x)) ≡ true =
        rw (row, same) (==_refl (hashes2 (a / 16 + b / 16 * cells_x))) in
      let none : covering (swap_row hashes1 hashes2 y) (a / 16) ≡ 0 =
        swap_row-covering hashes1 hashes2 y (a / 16) h ∙ rw clean refl in
      AllOf-map (Outside (a / 16)) (Off a b) (cell_rect y)
        (λ r out. cell_rect-Off y a b r (inr out)) (swap_row hashes1 hashes2 y)
        (covering-zero (swap_row hashes1 hashes2 y) (a / 16) none)
]
  where
    AllOf-all : (regions : List Region) → AllOf (λ r. Unit) regions
    AllOf-all [] = tt
    AllOf-all (r ∷ regions) = (tt, AllOf-all regions)

all_regions-Off :
    (n : ℕ) (hashes1 hashes2 : Hashes) (y a b : ℕ)
    → a / 16 < cells_x
    → hashes1 (a / 16 + b / 16 * cells_x) ≡ hashes2 (a / 16 + b / 16 * cells_x)
    → AllOf (Off a b) (all_regions n hashes1 hashes2 y)
unfolding all_regions
all_regions-Off zero hashes1 hashes2 y a b h same = tt
all_regions-Off (suc n) hashes1 hashes2 y a b h same =
    AllOf-append (Off a b) (map (cell_rect y) (swap_row hashes1 hashes2 y))
      (all_regions n hashes1 hashes2 (y + 1)) (row-Off hashes1 hashes2 y a b h same)
      (all_regions-Off n hashes1 hashes2 (y + 1) a b h same)

-- On a screen of at least 1024 by 768 pixels and with a sound queue that fits its array, `gfxSwap`
-- ends without a fault, and where the hash of a cell, with the commands of the frame marked, is that
-- of the last frame, every byte of every pixel of the cell is on the screen as before.
pub swap-clean :
    (assets : Assets) (bytes : Bytes) (f : Frame) (hashes : Hashes) (a b k : ℕ)
    → IsScreen assets.screen
    → 1024 ≤ assets.screen.width
    → 768 ≤ assets.screen.height
    → IsQueue assets f.gfx
    → mark_commands bytes f.hashes1 f.gfx.commands ≡ ok hashes
    → a < 1024
    → hashes (a / 16 + b / 16 * cells_x) ≡ f.hashes2 (a / 16 + b / 16 * cells_x)
    → k < 3
    → (f' : Frame) × (swap assets bytes f ≡ ok f')
      × (f'.video ((a + b * assets.screen.width) * 3 + k)
          ≡ f.video ((a + b * assets.screen.width) * 3 + k))
unfolding swap
swap-clean assets bytes f hashes a b k v wide high q marked ha same hk =
    let on =
      all_regions-OnScreen assets.screen wide high cells_y hashes f.hashes2 0 (omega arith) in
    let off = all_regions-Off cells_y hashes f.hashes2 0 a b (omega arith) same in
    let (d, g, kept) =
      redraw_regions-Off assets a b k f.gfx.commands (all_regions cells_y hashes f.hashes2 0)
        (record { clip = f.clip; color = f.gfx.color; buffer = f.buffer; video = f.video }) v
        (omega arith) hk q.sound on in
    (swapped hashes d, rw (marked, g) refl, kept off)
