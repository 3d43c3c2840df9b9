-- ===== src/Gfx/Queue/Swap.antt =====
-- A frame with the commands of the frame before is drawn without any work.
use umka_os.Base.{
  ℕ, zero, suc, ◌+◌, ◌-◌, ◌*◌, ◌≡◌, refl, sym, ◌∙◌, ap, subst, fun_ext, Bool, true, false, not,
  List, [], arith, inl, inr, ◌==◌, ltb, Bool-cases, ok, >>=-eq-ok, ok_inj,
}
use umka_os.Gfx.Hash.{fnv_32_init}
use umka_os.Gfx.Cells.{cells_x, cells_y, Hashes, run_end, row_regions, swap_row}
use umka_os.Gfx.Queue.{
  Command, Bytes, Assets, Drawing, Frame, redraw_regions, all_regions, mark_commands, swap,
}

eq_refl : (n : ℕ) → (n == n) ≡ true
eq_refl n = ground arith

run_end-clean :
    (n : ℕ) (dirty : ℕ → Bool) (x : ℕ) → ((i : ℕ) → dirty i ≡ false) → run_end n dirty x ≡ x
unfolding run_end
run_end-clean zero dirty x clean = refl
run_end-clean (suc n) dirty x clean = rw (run_end, clean x) refl

row_regions-clean :
    (n : ℕ) (dirty : ℕ → Bool) (start : ℕ)
    → ((i : ℕ) → dirty i ≡ false)
    → row_regions n dirty start ≡ []
unfolding row_regions
row_regions-clean zero dirty start clean = refl
row_regions-clean (suc n) dirty start clean = elim (Bool-cases (ltb start cells_x)) [
  | inl e ↦
      rw (row_regions, e, run_end-clean (cells_x - start) dirty start clean, eq_refl start)
        (row_regions-clean n dirty (start + 1) clean)
  | inr e ↦ rw (row_regions, e) refl
]

all_regions-same : (n : ℕ) (hashes : Hashes) (y : ℕ) → all_regions n hashes hashes y ≡ []
unfolding all_regions swap_row
all_regions-same zero hashes y = refl
all_regions-same (suc n) hashes y =
    rw
      (row_regions-clean cells_x (λ x. not (hashes (x + y * cells_x) == hashes (x + y * cells_x))) 0
        (λ x. ap not (eq_refl (hashes (x + y * cells_x)))))
      (all_regions-same n hashes (y + 1))

-- The frame behind `gfxSwap`.
abbrev pub swapped : Hashes → Drawing → Frame
swapped hashes d = record {
  gfx = record { commands = []; color = d.color };
  hashes1 = λ i. fnv_32_init;
  hashes2 = hashes;
  clip = d.clip;
  buffer = d.buffer;
  video = d.video;
}

-- The same commands queued again.
abbrev pub again : List Command → ℕ → Frame → Frame
again commands color f = record f { gfx = record { commands = commands; color = color } }

swapped-swap :
    (a : Assets) (bytes : Bytes) (commands : List Command) (color : ℕ) (hashes : Hashes)
    (d : Drawing)
    → mark_commands bytes (λ i. fnv_32_init) commands ≡ ok hashes
    → swap a bytes (again commands color (swapped hashes d))
      ≡ ok (again [] color (swapped hashes d))
unfolding swap redraw_regions
swapped-swap a bytes commands color hashes d m = rw (m, all_regions-same cells_y hashes 0) refl

-- When `gfxSwap` has run from cleared hashes, and the same commands are queued again, with the same
-- bytes of padding in memory and any color set, then a second `gfxSwap` succeeds, draws nothing and leaves the color, the hashes of
-- the frame, the back buffer and the screen as they are.
pub swap-again :
    (a : Assets) (bytes bytes' : Bytes) (f f1 : Frame) (color : ℕ)
    → f.hashes1 ≡ (λ i. fnv_32_init)
    → swap a bytes f ≡ ok f1
    → ((i : ℕ) (cmd : Command) → bytes' i cmd ≡ bytes i cmd)
    → swap a bytes' (again f.gfx.commands color f1) ≡ ok (again [] color f1)
unfolding swap
swap-again a bytes bytes' f f1 color cleared e padding =
    let (hashes, m, rest) = >>=-eq-ok (mark_commands bytes f.hashes1 f.gfx.commands) _ e in
    let start : Drawing = record {
      clip = f.clip;
      color = f.gfx.color;
      buffer = f.buffer;
      video = f.video;
    } in
    let (d, drawn, end) =
      >>=-eq-ok (redraw_regions a f.gfx.commands (all_regions cells_y hashes f.hashes2 0) start) _
        rest in
    let from : mark_commands bytes (λ i. fnv_32_init) f.gfx.commands ≡ ok hashes =
      ap (λ h. mark_commands bytes h f.gfx.commands) (sym cleared) ∙ m in
    let alike : bytes' ≡ bytes = fun_ext (λ i. fun_ext (λ cmd. padding i cmd)) in
    subst (λ g. swap a bytes' (again f.gfx.commands color g) ≡ ok (again [] color g))
      (ok_inj (swapped hashes d) f1 end)
      (swapped-swap a bytes' f.gfx.commands color hashes d
        (ap (λ b. mark_commands b (λ i. fnv_32_init) f.gfx.commands) alike ∙ from))
