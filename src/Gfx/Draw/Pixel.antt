-- ===== src/Gfx/Draw/Pixel.antt =====
-- A pixel that the clip lets through is on the screen, so its index is in the back buffer.
use umka_os.Base.{
  ℕ, ◌+◌, ◌*◌, ◌^◌, ◌≤◌, ◌<◌, ◌≡◌, ◌↔◌, refl, sym, ◌∙◌, ap₂, update_other, not, ◌&&◌, inl, inr,
  Bool, true, false, arith, Bool-cases, lt→ltb, update, ok,
}
use umka_os.Base.Int.{checked, ℤ, pos, negsuc, ◌+ℤ◌, ◌≤ℤ◌, ltb_ℤ, +ℤ_parts, pos-+ℤ, pos-*ℤ}
use umka_os.Gfx.Rect.{Rect}
use umka_os.Gfx.Rect.Meet.{IsSmall, Inside, checked-Within, +ℤ-Within}
use umka_os.Gfx.Draw.{Screen, Buffer, poke, plot, lets, set_pixel}

-- The clip lies on the screen.
pub record IsClip (s : Screen) (clip : Rect) : Type 0 where
  pub small : IsSmall clip
  pub left : pos 0 ≤ℤ clip.x
  pub top : pos 0 ≤ℤ clip.y
  pub right : clip.x +ℤ clip.w ≤ℤ pos s.width
  pub bottom : clip.y +ℤ clip.h ≤ℤ pos s.height

-- The sides of a screen are less than 2 ^ 15.
pub record IsScreen (s : Screen) : Type 0 where
  pub width : s.width < 2 ^ 15
  pub height : s.height < 2 ^ 15

pub plot-ok :
    (s : Screen) (buf : Buffer) (i j color : ℕ)
    → IsScreen s
    → i < s.width
    → j < s.height
    → plot s buf (pos i) (pos j) color ≡ ok (update buf (i + j * s.width) color)
unfolding plot poke
plot-ok s buf i j color v hi hj =
    let wide : j * s.width ≤ j * 2 ^ 15 = grind arith in
    let inside : i + j * s.width < s.width * s.height = grind arith in
    let row : checked (pos (j * s.width)) ≡ ok (pos (j * s.width)) =
      checked-Within (pos (j * s.width)) (2 ^ 30) (omega arith)
        (omega (arith, v.height), omega arith) in
    let index : checked (pos (i + j * s.width)) ≡ ok (pos (i + j * s.width)) =
      checked-Within (pos (i + j * s.width)) (2 ^ 30 + 2 ^ 15) (omega arith)
        (omega (arith, v.height, v.width), omega arith) in
    rw
      (
        pos-*ℤ j s.width,
        row,
        pos-+ℤ i (j * s.width),
        index,
        lt→ltb (i + j * s.width) (s.width * s.height) inside,
      )
      refl

-- Whether a point is in a rectangle.
unfoldable pub in_rect : Rect → ℤ → ℤ → Bool
in_rect r px py =
    (not (ltb_ℤ px r.x) && ltb_ℤ px (r.x +ℤ r.w)) && (not (ltb_ℤ py r.y) && ltb_ℤ py (r.y +ℤ r.h))

in_rect-Inside :
    (r : Rect) (px py : ℤ)
    → in_rect r px py ≡ true
    → (r.x ≤ℤ px) × (px +ℤ pos 1 ≤ℤ r.x +ℤ r.w) × ((r.y ≤ℤ py) × (py +ℤ pos 1 ≤ℤ r.y +ℤ r.h))
unfolding in_rect
in_rect-Inside r px py e =
    let x1 = +ℤ_parts px (pos 1) in let y1 = +ℤ_parts py (pos 1) in ground arith

in_rect-of-Inside : (r : Rect) (px py : ℤ) → Inside r px py → in_rect r px py ≡ true
unfolding in_rect
in_rect-of-Inside r px py h =
    let x1 = +ℤ_parts px (pos 1) in let y1 = +ℤ_parts py (pos 1) in ground arith

Bool_ext : (b c : Bool) → (b ≡ true → c ≡ true) → (c ≡ true → b ≡ true) → b ≡ c
Bool_ext true c to from = sym (to refl)
Bool_ext false true to from = from refl
Bool_ext false false to from = refl

-- A rectangle that has the common points of two others.
pub in_rect-both :
    (r p q : Rect) (px py : ℤ)
    → (Inside r px py ↔ (Inside p px py × Inside q px py))
    → in_rect r px py ≡ (in_rect p px py && in_rect q px py)
in_rect-both r p q px py (to, from) =
    Bool_ext (in_rect r px py) (in_rect p px py && in_rect q px py)
      (λ e.
        let (x, x', y) = in_rect-Inside r px py e in
        let (hp, hq) = to ((x, x'), y) in
        rw (in_rect-of-Inside p px py hp, in_rect-of-Inside q px py hq) refl)
      (λ e.
        let (ep, eq) = both (in_rect p px py) (in_rect q px py) e in
        let (x, x', y) = in_rect-Inside p px py ep in
        let (z, z', w) = in_rect-Inside q px py eq in
        in_rect-of-Inside r px py (from (((x, x'), y), ((z, z'), w))))
  where
    both : (b c : Bool) → (b && c) ≡ true → (b ≡ true) × (c ≡ true)
    both b c e = ground arith

lets-in_rect : (clip : Rect) (x y : ℤ) → IsSmall clip → lets clip x y ≡ ok (in_rect clip x y)
unfolding lets in_rect
lets-in_rect clip x y small =
    let r =
      checked-Within (clip.x +ℤ clip.w) (2 ^ 30) (omega arith)
        (+ℤ-Within clip.x clip.w (2 ^ 29) (2 ^ 29) small.x small.w) in
    let b =
      checked-Within (clip.y +ℤ clip.h) (2 ^ 30) (omega arith)
        (+ℤ-Within clip.y clip.h (2 ^ 29) (2 ^ 29) small.y small.h) in
    rw (r, b) (ground arith)

pub on_axis :
    (lo hi x : ℤ) (n : ℕ)
    → pos 0 ≤ℤ lo
    → lo ≤ℤ x
    → x +ℤ pos 1 ≤ℤ hi
    → hi ≤ℤ pos n
    → (i : ℕ) × (x ≡ pos i) × (i < n)
on_axis lo hi (pos i) n h0 h1 h2 h3 = (i, refl, omega (arith, +ℤ_parts (pos i) (pos 1)))
on_axis lo hi (negsuc i) n h0 h1 h2 h3 = absurd (omega arith)

row_lt : (w a b i j : ℕ) → a < w → b < j → a + b * w < i + j * w
row_lt w a b i j ha h = grind arith

pub same_pixel : (w a b i j : ℕ) → a < w → i < w → a + b * w ≡ i + j * w → (a ≡ i) × (b ≡ j)
same_pixel w a b i j ha hi e = ground (arith, row_lt w a b i j, row_lt w i j a b)

-- On a screen and with a clip that lies on it, setting a pixel never writes outside of the back
-- buffer, and changes no pixel outside of the clip.
pub set_pixel-outside :
    (s : Screen) (clip : Rect) (buf : Buffer) (x y : ℤ) (color a b : ℕ)
    → IsScreen s
    → IsClip s clip
    → a < s.width
    → in_rect clip (pos a) (pos b) ≡ false
    → (buf' : Buffer) × (set_pixel s clip buf x y color ≡ ok buf')
      × (buf' (a + b * s.width) ≡ buf (a + b * s.width))
unfolding set_pixel
set_pixel-outside s clip buf x y color a b v c ha out = elim (Bool-cases (in_rect clip x y)) [
  | inr e ↦ (buf, rw (lets-in_rect clip x y c.small, e) refl, refl)
  | inl e ↦
      let (lx, ux, (ly, uy)) = in_rect-Inside clip x y e in
      let (i, ex, hi) = on_axis clip.x (clip.x +ℤ clip.w) x s.width c.left lx ux c.right in
      let (j, ey, hj) = on_axis clip.y (clip.y +ℤ clip.h) y s.height c.top ly uy c.bottom in
      let here : in_rect clip (pos i) (pos j) ≡ true = ap₂ (in_rect clip) (sym ex) (sym ey) ∙ e in
      (
        update buf (i + j * s.width) color,
        rw (lets-in_rect clip x y c.small, e)
            (ap₂ (λ k l. plot s buf k l color) ex ey ∙ plot-ok s buf i j color v hi hj),
        update_other buf (i + j * s.width) color (a + b * s.width) (λ same.
            let (p, q) = same_pixel s.width a b i j ha hi same in
            let z = rw (p, q) at out in cc (here)),
      )
]
