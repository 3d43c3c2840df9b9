-- ===== src/Gfx/Rect/Meet.antt =====
-- The intersection of two rectangles is what they have in common.
use umka_os.Base.{
  ℕ, ◌+◌, ◌≤◌, ◌<◌, ◌^◌, ◌≡◌, ◌↔◌, ◌⊎◌, refl, true, ◌&&◌, arith, inl, inr, ok, lt→ltb,
}
use umka_os.Base.Int.{
  checked, ℤ, pos, negsuc, pos_part, neg_part, ◌+ℤ◌, ◌-ℤ◌, ◌≤ℤ◌, ltb_ℤ, +ℤ_parts, -ℤ_parts,
}
use umka_os.Gfx.Rect.{larger, smaller, Rect, meet, rect_intersect, overlap, rect_overlap}

-- At most `b` from 0.
abbrev pub Within : ℕ → ℤ → Type 0
Within b z = (pos_part z ≤ b) × (neg_part z ≤ b)

abbrev pub Small : ℤ → Type 0
Small z = Within (2 ^ 29) z

abbrev pub Covers : ℤ → ℤ → ℤ → Type 0
Covers x w p = (x ≤ℤ p) × (p +ℤ pos 1 ≤ℤ x +ℤ w)

checked-Small : (z : ℤ) → pos_part z < 2 ^ 31 → neg_part z < 2 ^ 31 → checked z ≡ ok z
unfolding checked
checked-Small (pos n) h g = ground arith
checked-Small (negsuc n) h g = ground arith

pub part_zero : (z : ℤ) → (pos_part z ≡ 0) ⊎ (neg_part z ≡ 0)
part_zero (pos n) = inr refl
part_zero (negsuc n) = inl refl

pub +ℤ-Within : (a b : ℤ) (m n : ℕ) → Within m a → Within n b → Within (m + n) (a +ℤ b)
+ℤ-Within a b m n h g =
    let z = part_zero (a +ℤ b) in (omega (arith, +ℤ_parts a b), omega (arith, +ℤ_parts a b))

pub -ℤ-Within : (a b : ℤ) (m n : ℕ) → Within m a → Within n b → Within (m + n) (a -ℤ b)
-ℤ-Within a b m n h g =
    let z = part_zero (a -ℤ b) in (omega (arith, -ℤ_parts a b), omega (arith, -ℤ_parts a b))

pub larger-Within : (n : ℕ) (a b : ℤ) → Within n a → Within n b → Within n (larger a b)
unfolding larger
larger-Within n a b h g = ground arith

pub smaller-Within : (n : ℕ) (a b : ℤ) → Within n a → Within n b → Within n (smaller a b)
unfolding smaller
smaller-Within n a b h g = ground arith

pub checked-Within : (z : ℤ) (n : ℕ) → n < 2 ^ 31 → Within n z → checked z ≡ ok z
checked-Within z n small h = checked-Small z (omega arith) (omega arith)

larger-le : (a b p : ℤ) → (larger a b ≤ℤ p) ↔ ((a ≤ℤ p) × (b ≤ℤ p))
unfolding larger
larger-le a b p = ground arith

le-smaller : (a b p : ℤ) → (p ≤ℤ smaller a b) ↔ ((p ≤ℤ a) × (p ≤ℤ b))
unfolding smaller
le-smaller a b p = ground arith

pub le-larger : (a b : ℤ) → (a ≤ℤ larger a b) × (b ≤ℤ larger a b)
unfolding larger
le-larger a b = ground arith

pub smaller_le : (a b : ℤ) → (smaller a b ≤ℤ a) × (smaller a b ≤ℤ b)
unfolding smaller
smaller_le a b = ground arith

-- What is covered from `x` to `r`.
Covers-diff : (x r p : ℤ) → Covers x (r -ℤ x) p ↔ ((x ≤ℤ p) × (p +ℤ pos 1 ≤ℤ r))
Covers-diff x r p = (
  λ h. (h.0, omega (arith, -ℤ_parts r x, +ℤ_parts x (r -ℤ x))),
  λ h. (h.0, omega (arith, -ℤ_parts r x, +ℤ_parts x (r -ℤ x))),
)

module _ (x1 w1 x2 w2 : ℤ) where
  -- The extent of one axis.
  abbrev pub extent : ℤ
  extent = smaller (x1 +ℤ w1) (x2 +ℤ w2) -ℤ larger x1 x2

  pub meet-ok :
      Small x1 → Small w1 → Small x2 → Small w2 → meet x1 w1 x2 w2 ≡ ok (larger x1 x2, extent)
  unfolding meet
  meet-ok sx1 sw1 sx2 sw2 =
      let s1 = +ℤ-Within x1 w1 (2 ^ 29) (2 ^ 29) sx1 sw1 in
      let s2 = +ℤ-Within x2 w2 (2 ^ 29) (2 ^ 29) sx2 sw2 in
      let r = smaller-Within (2 ^ 29 + 2 ^ 29) (x1 +ℤ w1) (x2 +ℤ w2) s1 s2 in
      let x = larger-Within (2 ^ 29) x1 x2 sx1 sx2 in
      rw
        (
          checked-Within (x1 +ℤ w1) (2 ^ 30) (omega arith) s1,
          checked-Within (x2 +ℤ w2) (2 ^ 30) (omega arith) s2,
          checked-Within extent (2 ^ 30 + 2 ^ 29) (omega arith)
              (-ℤ-Within (smaller (x1 +ℤ w1) (x2 +ℤ w2)) (larger x1 x2) (2 ^ 30) (2 ^ 29) r x),
        )
        refl

  pub extent-Covers : (p : ℤ) → Covers (larger x1 x2) extent p ↔ (Covers x1 w1 p × Covers x2 w2 p)
  extent-Covers p =
      let (to, from) = Covers-diff (larger x1 x2) (smaller (x1 +ℤ w1) (x2 +ℤ w2)) p in
      let (lo, lo') = larger-le x1 x2 p in
      let (hi, hi') = le-smaller (x1 +ℤ w1) (x2 +ℤ w2) (p +ℤ pos 1) in
      (
        λ c. let d = to c in let l = lo d.0 in let h = hi d.1 in ((l.0, h.0), (l.1, h.1)),
        λ ((l1, h1), (l2, h2)). from (lo' (l1, l2), hi' (h1, h2)),
      )

-- The meet ends where the first axis ends, or before.
pub extent-le : (x1 w1 x2 w2 : ℤ) → larger x1 x2 +ℤ extent x1 w1 x2 w2 ≤ℤ x1 +ℤ w1
extent-le x1 w1 x2 w2 =
    let r = smaller (x1 +ℤ w1) (x2 +ℤ w2) in
    omega (
      arith,
      (smaller_le (x1 +ℤ w1) (x2 +ℤ w2)).0,
      -ℤ_parts r (larger x1 x2),
      +ℤ_parts (larger x1 x2) (r -ℤ larger x1 x2),
    )

-- A rectangle whose numbers are small.
pub record IsSmall (r : Rect) : Type 0 where
  pub x : Small r.x
  pub y : Small r.y
  pub w : Small r.w
  pub h : Small r.h

-- The point is in the rectangle.
abbrev pub Inside : Rect → ℤ → ℤ → Type 0
Inside r px py = Covers r.x r.w px × Covers r.y r.h py

pub extents-Inside :
    (a b : Rect) (px py : ℤ)
    → Inside
        (record {
          x = larger a.x b.x;
          y = larger a.y b.y;
          w = extent a.x a.w b.x b.w;
          h = extent a.y a.h b.y b.h;
        })
        px
        py
      ↔ (Inside a px py × Inside b px py)
extents-Inside a b px py =
    let (across, across') = extent-Covers a.x a.w b.x b.w px in
    let (down, down') = extent-Covers a.y a.h b.y b.h py in
    (
      λ (c, d). let e = across c in let f = down d in ((e.0, f.0), (e.1, f.1)),
      λ ((c1, d1), (c2, d2)). (across' (c1, c2), down' (d1, d2)),
    )

-- For two rectangles whose numbers are at most 2 ^ 29 from 0 `rectIntersect` overflows nowhere, and
-- a point is in its result if and only if it is in both.
pub rect_intersect-Inside :
    (a b : Rect) (px py : ℤ)
    → IsSmall a
    → IsSmall b
    → (r : Rect) × (rect_intersect a b ≡ ok r)
      × (Inside r px py ↔ (Inside a px py × Inside b px py))
unfolding rect_intersect
rect_intersect-Inside a b px py sa sb =
    let r : Rect = record {
      x = larger a.x b.x;
      y = larger a.y b.y;
      w = extent a.x a.w b.x b.w;
      h = extent a.y a.h b.y b.h;
    } in
    (
      r,
      rw (meet-ok a.x a.w b.x b.w sa.x sa.w sb.x sb.w, meet-ok a.y a.h b.y b.h sa.y sa.h sb.y sb.h)
          refl,
      extents-Inside a b px py,
    )

-- The test of one axis.
pub overlap-ok :
    (x1 w1 x2 w2 : ℤ)
    → Small x1
    → Small w1
    → Small x2
    → Small w2
    → overlap x1 w1 x2 w2 ≡ ok (ltb_ℤ x1 (x2 +ℤ w2) && ltb_ℤ x2 (x1 +ℤ w1))
unfolding overlap
overlap-ok x1 w1 x2 w2 sx1 sw1 sx2 sw2 =
    rw
      (
        checked-Within (x2 +ℤ w2) (2 ^ 30) (omega arith)
            (+ℤ-Within x2 w2 (2 ^ 29) (2 ^ 29) sx2 sw2),
        checked-Within (x1 +ℤ w1) (2 ^ 30) (omega arith)
            (+ℤ-Within x1 w1 (2 ^ 29) (2 ^ 29) sx1 sw1),
      )
      refl

overlap-Covers :
    (x1 w1 x2 w2 p : ℤ)
    → Small x1
    → Small w1
    → Small x2
    → Small w2
    → Covers x1 w1 p
    → Covers x2 w2 p
    → overlap x1 w1 x2 w2 ≡ ok true
unfolding overlap
overlap-Covers x1 w1 x2 w2 p sx1 sw1 sx2 sw2 (l1, h1) (l2, h2) =
    let before : ltb_ℤ x1 (x2 +ℤ w2) ≡ true = lt→ltb _ _ (omega (arith, +ℤ_parts p (pos 1))) in
    let behind : ltb_ℤ x2 (x1 +ℤ w1) ≡ true = lt→ltb _ _ (omega (arith, +ℤ_parts p (pos 1))) in
    rw (overlap-ok x1 w1 x2 w2 sx1 sw1 sx2 sw2, before, behind) refl

-- Two rectangles whose numbers are small and that have a point in common overlap for
-- `rectOverlap`: a command that paints into a region is not skipped.
pub rect_overlap-Inside :
    (a b : Rect) (px py : ℤ)
    → IsSmall a
    → IsSmall b
    → Inside a px py
    → Inside b px py
    → rect_overlap a b ≡ ok true
unfolding rect_overlap
rect_overlap-Inside a b px py sa sb (ca, da) (cb, db) =
    rw (overlap-Covers a.x a.w b.x b.w px sa.x sa.w sb.x sb.w ca cb)
      (overlap-Covers a.y a.h b.y b.h py sa.y sa.h sb.y sb.h da db)
