-- ===== src/Gfx/Rect.antt =====
-- `rectIntersect` and `rectOverlap` of src/sys/gfx.c.
pub mod Meet
use umka_os.Base.{ℕ, ◌^◌, ◌<◌, ◌≤◌, Bool, ◌&&◌, if◌then◌else◌, ltb, Res, ok, fault, ◌>>=◌}
use umka_os.Base.Int.{checked, ℤ, pos, negsuc, pos_part, neg_part, ◌+ℤ◌, ◌-ℤ◌, ltb_ℤ}

pub record Rect : Type 0 where
  pub x : ℤ
  pub y : ℤ
  pub w : ℤ
  pub h : ℤ

-- `a > b ? a : b`
unfoldable pub larger : ℤ → ℤ → ℤ
larger a b = if ltb_ℤ b a then a else b

-- `a < b ? a : b`
unfoldable pub smaller : ℤ → ℤ → ℤ
smaller a b = if ltb_ℤ a b then a else b

-- One axis of `rectIntersect`: the start and the extent.
unfoldable pub meet : ℤ → ℤ → ℤ → ℤ → Res (ℤ × ℤ)
meet x1 w1 x2 w2 = checked (x1 +ℤ w1) >>= λ r1. checked (x2 +ℤ w2) >>= λ r2.
    checked (smaller r1 r2 -ℤ larger x1 x2) >>= λ w. ok (larger x1 x2, w)

-- `rectIntersect`
unfoldable pub rect_intersect : Rect → Rect → Res Rect
rect_intersect a b = meet a.x a.w b.x b.w >>= λ (x, w).
    meet a.y a.h b.y b.h >>= λ (y, h). ok (record { x = x; y = y; w = w; h = h })

-- One axis of `rectOverlap`.
unfoldable pub overlap : ℤ → ℤ → ℤ → ℤ → Res Bool
overlap x1 w1 x2 w2 =
    checked (x2 +ℤ w2) >>= λ r2. checked (x1 +ℤ w1) >>= λ r1. ok (ltb_ℤ x1 r2 && ltb_ℤ x2 r1)

-- `rectOverlap`; `&&` stops at the first test that fails, so the vertical sums are made only where
-- the horizontal tests hold.
unfoldable pub rect_overlap : Rect → Rect → Res Bool
rect_overlap a b = overlap a.x a.w b.x b.w >>= λ horizontal.
    if horizontal then overlap a.y a.h b.y b.h else ok horizontal
