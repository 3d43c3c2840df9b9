-- ===== src/Vfs/Tree/Create.antt =====
-- `vfsCreate_`: what it makes, and where it is found afterwards.
use umka_os.Base.{
  subst, ◌<◌, ◌≤◌, ◌≡◌, ◌≢◌, refl, sym, ◌∙◌, inl, inr, ap, Bool, true, false, [], arith, ==-false,
  zero-cases, Text, codes, length, if◌then◌else◌, ok, le→not_ltb, lt→not_leb,
}
use umka_os.CString.{same, same_refl}
use umka_os.Vfs.{Ptr, null, Vfs, Live, IsTree}
use umka_os.Vfs.Change.{Extends, Extends-refl}
use umka_os.Vfs.Path.{basename, cut, drop_last, descend, step, walk, get_path, max_sub}
use umka_os.Vfs.Path.Total.{step-Arrives, get_path-Arrives}
use umka_os.Vfs.Path.Stable.{walk-stable, get_path-stable}
use umka_os.Vfs.Path.Split.{cut-basename, walk-append}
use umka_os.Vfs.Tree.{alloc, filename_size, create_missing, create}
use umka_os.Vfs.Tree.Grow.{IsHung, attach-IsHung}
use umka_os.Vfs.Tree.Hung.{IsHung-IsTree, IsHung-Extends}
use umka_os.Vfs.Tree.Found.{IsHung-descend}

-- The path fits the arrays `sub` and `filename`.
pub record IsShort (path : Text) : Type 0 where
  pub components : length (cut path []) ≤ max_sub
  pub name : length (basename path) < filename_size

-- A component that names a child.
pub record IsPlain (name : Text) : Type 0 where
  pub not_up : same name (codes "..") ≡ false
  pub not_stay : same name (codes ".") ≡ false
  pub not_empty : same name [] ≡ false

pub step-descend :
    (v : Vfs) (d : Ptr) (name : Text) → IsPlain name → step v d name ≡ descend v d name
unfolding step
step-descend v d name plain = rw (plain.not_up, plain.not_stay, plain.not_empty)

pub IsPlain-ne-nil : {name : Text} → IsPlain name → name ≢ []
unfolding same
IsPlain-ne-nil plain e = let h = rw e at plain.not_empty in cc

pub get_path-walk :
    (v : Vfs) (path : Text) (base : Bool)
    → length (cut path []) ≤ max_sub
    → get_path v path base ≡ walk v v.root (if base then drop_last (cut path []) else cut path [])
unfolding get_path
get_path-walk v path base short = rw (le→not_ltb _ _ short)

module _ {v : Vfs} (t : IsTree v) where
  alloc-IsHung :
      (d : Ptr) (name : Text)
      → Live v d
      → length name < filename_size
      → (w : Vfs) × (alloc v d name ≡ ok (w, v.fresh)) × IsHung t d name w
  unfolding alloc
  alloc-IsHung d name live short =
      let (w, e, hung) = attach-IsHung t d name live in (w, rw (lt→not_leb _ _ short, e), hung)

  -- The ways in which `vfsCreate_` returns.
  pub data Created (path : Text) : Vfs → Ptr → Type 0 where
    found : (p : Ptr) → get_path v path false ≡ ok p → p ≢ null → Created path v p
    orphan : get_path v path false ≡ ok null → get_path v path true ≡ ok null → Created path v null
    made :
        (d : Ptr) (w : Vfs)
        → get_path v path false ≡ ok null
        → get_path v path true ≡ ok d
        → Live v d
        → IsHung t d (basename path) w
        → Created path w v.fresh

  pub create-Created :
      (path : Text)
      → IsShort path
      → (w : Vfs) × (p : Ptr) × (create v path ≡ ok (w, p)) × Created path w p
  unfolding create create_missing
  create-Created path short =
      let (p, e, live) = get_path-Arrives t path false short.components in
      let (d, f, live_d) = get_path-Arrives t path true short.components in
      elim (zero-cases p) [
        | inr g ↦ (v, p, rw (e, ==-false p null g), found p e g)
        | inl z ↦ elim (zero-cases d) [
          | inl y ↦ (v, null, rw (e, z, f, y), orphan (e ∙ ap ok z) (f ∙ ap ok y))
          | inr g ↦
              let (w, h, hung) = alloc-IsHung d (basename path) (live_d g) short.name in
              (
                w,
                v.fresh,
                rw (e, z, f, ==-false d null g, h),
                made d w (e ∙ ap ok z) f (live_d g) hung,
              )
        ]
      ]

  pub Created-IsTree : (path : Text) {w : Vfs} {p : Ptr} → Created path w p → IsTree w
  Created-IsTree path (found p e g) = t
  Created-IsTree path (orphan e f) = t
  Created-IsTree path (made d w e f live hung) = IsHung-IsTree t d (basename path) live hung

  pub Created-Extends : (path : Text) {w : Vfs} {p : Ptr} → Created path w p → Extends v w
  Created-Extends path (found p e g) = Extends-refl v
  Created-Extends path (orphan e f) = Extends-refl v
  Created-Extends path (made d w e f live hung) = IsHung-Extends t d (basename path) hung

  -- A missing path with a base name is missing in the last step.
  missing-descend :
      (path : Text) (d : Ptr)
      → IsShort path
      → IsPlain (basename path)
      → get_path v path false ≡ ok null
      → get_path v path true ≡ ok d
      → d ≢ null
      → Live v d
      → descend v d (basename path) ≡ ok null
  missing-descend path d short plain e f g live =
      let (r, s, _) = step-Arrives t d (basename path) live in
      let split = cut-basename path (IsPlain-ne-nil plain) in
      let dir = sym (get_path-walk v path true short.components) ∙ f in
      let whole = walk-append v v.root d r (drop_last (cut path [])) (basename path) dir g s in
      let now =
        ap (walk v v.root) (sym split) ∙ sym (get_path-walk v path false short.components) in
      let same_r : r ≡ null = cc (sym whole ∙ now ∙ e) in
      sym (step-descend v d (basename path) plain) ∙ s ∙ ap ok same_r

  pub ne_null_of_Live : (d : Ptr) → Live v d → d ≢ null
  ne_null_of_Live d (n, holds) z = let e = rw z at holds in cc (t.null_free)

  pub Created-ne_null :
      (path : Text) (d : Ptr) {w : Vfs} {p : Ptr}
      → get_path v path true ≡ ok d
      → d ≢ null
      → Created path w p
      → p ≢ null
  Created-ne_null path d f g (found p e h) = h
  Created-ne_null path d f g (orphan e f') = absurd (g (let z = sym f ∙ f' in cc))
  Created-ne_null path d f g (made d' w e f' live hung) =
      λ z. omega (arith, t.below_fresh d' live.0 live.1)

  pub Created-get_path :
      (path : Text) {w : Vfs} {p : Ptr}
      → IsShort path
      → IsPlain (basename path)
      → Created path w p
      → p ≢ null
      → get_path w path false ≡ ok p
  Created-get_path path short plain (found p e g) h = e
  Created-get_path path short plain (orphan e f) h = absurd (h refl)
  Created-get_path path short plain (made d w e f live hung) h =
      let name = basename path in
      let g = ne_null_of_Live d live in
      let x = IsHung-Extends t d name hung in
      let dir = sym (get_path-walk v path true short.components) ∙ f in
      let dir_w =
        ap (λ r. walk w r (drop_last (cut path []))) x.same_root
        ∙ walk-stable t x (drop_last (cut path [])) v.root d t.root_live dir g in
      let last_step =
        step-descend w d name plain
        ∙ IsHung-descend t d name name hung (missing-descend path d short plain e f g live)
        ∙ ap (λ b. if b then ok v.fresh else ok null) (same_refl name) in
      get_path-walk w path false short.components
      ∙ ap (walk w w.root) (cut-basename path (IsPlain-ne-nil plain))
      ∙ walk-append w w.root d v.fresh (drop_last (cut path [])) name dir_w g last_step

  -- In a tree, for a path that fits the arrays, `vfsCreate_` neither faults nor runs out of fuel, and keeps
  -- the tree.
  pub create-IsTree :
      (path : Text) → IsShort path → (w : Vfs) × (p : Ptr) × (create v path ≡ ok (w, p)) × IsTree w
  create-IsTree path short =
      let (w, p, e, c) = create-Created path short in (w, p, e, Created-IsTree path c)

  -- When a path that fits the arrays is created in a tree, every path that led to a node leads to the same
  -- node afterwards.
  pub create-stable :
      (path other : Text) (base : Bool) (q p : Ptr) {w : Vfs}
      → IsShort path
      → create v path ≡ ok (w, p)
      → get_path v other base ≡ ok q
      → q ≢ null
      → get_path w other base ≡ ok q
  create-stable path other base q p {w = w} short e led ne =
      let (w', p', e', c) = create-Created path short in
      let same_tree : w' ≡ w = cc (sym e' ∙ e) in
      subst (λ u. get_path u other base ≡ ok q) same_tree
        (get_path-stable t (Created-Extends path c) other base q led ne)

  -- In a tree, a path that fits the arrays, whose base name is no `.`, `..` or empty and whose
  -- directory exists is created, and leads to the created node afterwards.
  pub get_path-create :
      (path : Text) (d : Ptr)
      → IsShort path
      → IsPlain (basename path)
      → get_path v path true ≡ ok d
      → d ≢ null
      → (w : Vfs) × (p : Ptr) × (create v path ≡ ok (w, p))
        × (p ≢ null)
        × (get_path w path false ≡ ok p)
  get_path-create path d short plain f g =
      let (w, p, e, c) = create-Created path short in
      let ne = Created-ne_null path d f g c in (w, p, e, ne, Created-get_path path short plain c ne)
