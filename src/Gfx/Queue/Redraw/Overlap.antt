-- ===== src/Gfx/Queue/Redraw/Overlap.antt =====
-- A command is drawn again where it overlaps the region, and then the two have something in common.
use umka_os.Base.{ℕ, ◌+◌, ◌≤◌, ◌≡◌, refl, true, Bool, inl, inr, false, ◌&&◌, arith, Bool-cases, ok}
use umka_os.Base.Int.{ℤ, pos, pos_part, ◌+ℤ◌, ◌-ℤ◌, ◌≤ℤ◌, ltb_ℤ, +ℤ_parts, -ℤ_parts}
use umka_os.Gfx.Rect.{Rect, larger, smaller, rect_overlap}
use umka_os.Gfx.Rect.Meet.{part_zero, smaller_le, IsSmall, extent, le-larger, overlap-ok}

-- Whether the two meet from left to right.
abbrev pub across : Rect → Rect → Bool
across a b = ltb_ℤ a.x (b.x +ℤ b.w) && ltb_ℤ b.x (a.x +ℤ a.w)

pub rect_overlap-Runs :
    (a b : Rect)
    → IsSmall a
    → IsSmall b
    → (hit : Bool) × (rect_overlap a b ≡ ok hit) × (hit ≡ true → across a b ≡ true)
unfolding rect_overlap
rect_overlap-Runs a b sa sb =
    let e = overlap-ok a.x a.w b.x b.w sa.x sa.w sb.x sb.w in
    elim (Bool-cases (across a b)) [
      | inl hit ↦ (
        ltb_ℤ a.y (b.y +ℤ b.h) && ltb_ℤ b.y (a.y +ℤ a.h),
        rw (e, hit) (overlap-ok a.y a.h b.y b.h sa.y sa.h sb.y sb.h),
        λ both. hit,
      )
      | inr miss ↦ (false, rw (e, miss) refl, λ both. cc)
    ]

ltb-across : (a b c d : ℤ) → (ltb_ℤ a b && ltb_ℤ c d) ≡ true → (a ≤ℤ b) × (c ≤ℤ d)
ltb-across a b c d e = ground arith

larger-smaller : (a b c d : ℤ) → a ≤ℤ c → a ≤ℤ d → b ≤ℤ c → b ≤ℤ d → larger a b ≤ℤ smaller c d
unfolding larger smaller
larger-smaller a b c d h1 h2 h3 h4 = ground arith

-- What two rectangles of no negative width have in common, when they meet, has none, and it is no
-- further to the right in the second than that is wide.
pub across-extent :
    (x1 x2 : ℤ) (w1 w2 : ℕ)
    → (ltb_ℤ x1 (x2 +ℤ pos w2) && ltb_ℤ x2 (x1 +ℤ pos w1)) ≡ true
    → (pos 0 ≤ℤ extent x1 (pos w1) x2 (pos w2))
      × (pos_part (larger x1 x2 -ℤ x2) + pos_part (extent x1 (pos w1) x2 (pos w2)) ≤ w2)
across-extent x1 x2 w1 w2 e =
    let l = larger x1 x2 in
    let r = smaller (x1 +ℤ pos w1) (x2 +ℤ pos w2) in
    let (left, right) = ltb-across x1 (x2 +ℤ pos w2) x2 (x1 +ℤ pos w1) e in
    let lo : l ≤ℤ r =
      larger-smaller x1 x2 (x1 +ℤ pos w1) (x2 +ℤ pos w2) (omega (arith, +ℤ_parts x1 (pos w1)))
        (omega (arith, left)) (omega (arith, right)) (omega (arith, +ℤ_parts x2 (pos w2))) in
    let some : pos 0 ≤ℤ (r -ℤ l) = omega (arith, -ℤ_parts r l) in
    let none = part_zero (l -ℤ x2) in
    let none' = part_zero (r -ℤ l) in
    (
      some,
      omega (
        arith,
        -ℤ_parts r l,
        -ℤ_parts l x2,
        +ℤ_parts x2 (pos w2),
        (smaller_le (x1 +ℤ pos w1) (x2 +ℤ pos w2)).1,
        (le-larger x1 x2).1,
      ),
    )
