-- ===== src/Vfs/Path/Stable.antt =====
-- A walk that arrives at a node arrives there as well after the tree has grown.
use umka_os.Base.{
  ℕ, zero, suc, ◌+◌, ◌<◌, ◌≡◌, ◌≢◌, sym, ◌∙◌, inl, inr, ap, true, false, Bool, List, [], ◌∷◌, arith,
  ==-false, Bool-cases, zero-cases, subst, Text, ok, ltb, length, if◌then◌else◌,
}
use umka_os.CString.{same}
use umka_os.Vfs.{Ptr, null, Vfs, Live, IsLink, IsTree}
use umka_os.Vfs.Change.{Extends}
use umka_os.Vfs.Path.{find_child, descend, ascend, step, walk, get_path, cut, drop_last, max_sub}
use umka_os.Vfs.Path.Search.{find_child-here, find_child-next, descend-eq}
use umka_os.Vfs.Path.Total.{next-IsLink, step-Arrives}

-- What `same` says of a name it says of an equal name.
find_child-null :
    (k : ℕ) (v : Vfs) (name : Text) (p q : Ptr) → p ≡ null → find_child k v name p ≡ ok q → q ≡ null
unfolding find_child
find_child-null zero v name p q e h = cc
find_child-null (suc k) v name p q e h = ground arith

module _ {v w : Vfs} (t : IsTree v) (x : Extends v w) where
  find_child-stable :
      (k k' : ℕ) (name : Text) {d lo : Ptr} (p q : Ptr)
      → IsLink v d lo p
      → find_child k v name p ≡ ok q
      → q ≢ null
      → v.fresh < p + k'
      → find_child k' w name p ≡ ok q
  unfolding find_child
  find_child-stable zero k' name p q l found g enough = cc
  find_child-stable (suc k) zero name p q l found g enough =
      absurd (omega (arith, t.below_fresh p l.node l.holds))
  find_child-stable (suc k) (suc k') name p q l found g enough =
      let (m, f, kept) = x.kept p l.node l.holds in
      elim (Bool-cases (same l.node.filename name)) [
        | inl s ↦
            find_child-here k' w name p m f ne
              (subst (λ y. same y name ≡ true) (sym kept.filename) s)
            ∙ sym (find_child-here k v name p l.node l.holds ne s)
            ∙ found
        | inr s ↦
            let rest = sym (find_child-next k v name p l.node l.holds ne s) ∙ found in
            let more =
              λ (z : l.node.sibling ≡ null). g (find_child-null k v name l.node.sibling q z rest) in
            let n = next-IsLink t l more in
            find_child-next k' w name p m f ne
              (subst (λ y. same y name ≡ false) (sym kept.filename) s)
            ∙ ap (find_child k' w name) (kept.sibling more)
            ∙ find_child-stable k k' name {lo = p} l.node.sibling q n rest g
                (omega (arith, n.later))
      ]
    where
      ne : p ≢ null
      ne h = omega (arith, l.later)

  descend-stable :
      (name : Text) (p q : Ptr)
      → Live v p
      → descend v p name ≡ ok q
      → q ≢ null
      → descend w p name ≡ ok q
  descend-stable name p q (n, holds) found g =
      let (m, f, kept) = x.kept p n holds in
      let before = sym (descend-eq v p name n holds) ∙ found in
      let more =
        λ (z : n.child ≡ null). g (find_child-null (suc v.fresh) v name n.child q z before) in
      let l = t.child_link p n holds more in
      descend-eq w p name m f
      ∙ ap (find_child (suc w.fresh) w name) (kept.child more)
      ∙ find_child-stable (suc v.fresh) (suc w.fresh) name n.child q l before g
          (omega (arith, l.later, x.fresh_le))

  pub step-stable :
      (name : Text) (p q : Ptr) → Live v p → step v p name ≡ ok q → q ≢ null → step w p name ≡ ok q
  unfolding step ascend
  step-stable name p q (n, holds) found g =
      let (m, f, kept) = x.kept p n holds in
      ground (arith, descend-stable name p q (n, holds), kept.parent)

  pub walk-stable :
      (names : List Text) (p q : Ptr)
      → Live v p
      → walk v p names ≡ ok q
      → q ≢ null
      → walk w p names ≡ ok q
  unfolding walk
  walk-stable [] p q live found g = found
  walk-stable (name ∷ names) p q live found g =
      let (r, e, live') = step-Arrives t p name live in
      elim (zero-cases r) [
        | inl z ↦ absurd (g (let found' = rw (e, z) at found in cc))
        | inr h ↦
            let found' = rw (e, ==-false r null h) at found in
            rw (step-stable name p r live e h, ==-false r null h)
              (walk-stable names r q (live' h) found' g)
      ]

  -- Every path that led to a node leads to it still.
  pub get_path-stable :
      (path : Text) (base : Bool) (q : Ptr)
      → get_path v path base ≡ ok q
      → q ≢ null
      → get_path w path base ≡ ok q
  unfolding get_path
  get_path-stable path base q found g = elim (Bool-cases (ltb max_sub (length (cut path [])))) [
    | inl long ↦ let found' = rw long at found in cc
    | inr short ↦
        let names = if base then drop_last (cut path []) else cut path [] in
        rw short (
          ap (λ r. walk w r names) x.same_root
          ∙ walk-stable names v.root q t.root_live (rw short at found) g)
  ]
