-- ===== src/Vfs/Tree/Unnamed.antt =====
-- `vfsCreate_` on a path whose base name is no component: one that ends in a slash or in `..`.
use umka_os.Base.{
  ◌≡◌, ◌≢◌, refl, sym, ◌∙◌, ◌⊎◌, inl, inr, ap, true, false, List, [], ◌∷◌, ◌++◌, arith, ◌==◌,
  Bool-cases, Text, codes, slash, ok,
}
use umka_os.CString.{same, eq_of_same, same_refl}
use umka_os.Vfs.{Ptr, null, Vfs, Live, IsTree}
use umka_os.Vfs.Path.{push, basename, cut, drop_last, ascend, step, walk, get_path}
use umka_os.Vfs.Path.Total.{step-Arrives}
use umka_os.Vfs.Path.Stable.{walk-stable}
use umka_os.Vfs.Path.Split.{walk-append}
use umka_os.Vfs.Tree.{create}
use umka_os.Vfs.Tree.Grow.{IsHung}
use umka_os.Vfs.Tree.Hung.{IsHung-Extends}
use umka_os.Vfs.Tree.Found.{IsHung-descend}
use umka_os.Vfs.Tree.Create.{
  IsShort, Created, found, orphan, made, create-Created, get_path-walk, ne_null_of_Live,
  Created-ne_null,
}

abbrev AllNamed : List Text → Type 0
AllNamed [] = Unit
AllNamed (x ∷ xs) = (x ≢ []) × AllNamed xs

push-AllNamed : (cur : Text) (xs : List Text) → AllNamed xs → AllNamed (push cur xs)
unfolding push
push-AllNamed [] xs h = h
push-AllNamed (c ∷ cur) xs h = (λ e. cc, h)

cut-AllNamed : (s cur : Text) → AllNamed (cut s cur)
unfolding cut
cut-AllNamed [] cur = push-AllNamed cur [] tt
cut-AllNamed (c ∷ s) cur = elim (Bool-cases (c == slash)) [
  | inl e ↦ rw (cut, e) (push-AllNamed cur _ (cut-AllNamed s []))
  | inr e ↦ rw (cut, e) (cut-AllNamed s (cur ++ c ∷ []))
]

last-cases :
    (xs : List Text)
    → AllNamed xs
    → (xs ≡ []) ⊎ ((x : Text) × (xs ≡ drop_last xs ++ x ∷ []) × (x ≢ []))
unfolding drop_last
last-cases [] h = inl refl
last-cases (x ∷ []) (h, _) = inr (x, refl, h)
last-cases (x ∷ y ∷ xs) (h, hs) = elim (last-cases (y ∷ xs) hs) [
  | inl e ↦ absurd (cc e)
  | inr (z, e, g) ↦ inr (z, ap (λ l. x ∷ l) e, g)
]

module _ {v : Vfs} (t : IsTree v) (d : Ptr) (name : Text) (live : Live v d) {w : Vfs}
    (hung : IsHung t d name w) where
  -- A step that led nowhere leads nowhere still, if it does not look for the new name.
  step-null :
      (x : Text)
      → step v d x ≡ ok null
      → x ≢ []
      → (same name x ≡ false) ⊎ (x ≡ codes "..")
      → step w d x ≡ ok null
  unfolding step ascend
  step-null x e named (inr up) =
      let (m, f, kept) = (IsHung-Extends t d name hung).kept d live.0 live.1 in
      let is_up : same x (codes "..") ≡ true = rw up (same_refl (codes "..")) in
      ground (arith, live.1, f, kept.parent)
  step-null x e named (inl other) =
      let ne = ne_null_of_Live t d live in
      let (m, f, kept) = (IsHung-Extends t d name hung).kept d live.0 live.1 in
      ground (arith, live.1, f, kept.parent, ne, eq_of_same x [], IsHung-descend t d name x hung)

module _ {v : Vfs} (t : IsTree v) where
  Created-missing :
      (path : Text) (d : Ptr) {w : Vfs} {p : Ptr}
      → IsShort path
      → (basename path ≡ []) ⊎ (basename path ≡ codes "..")
      → get_path v path false ≡ ok null
      → get_path v path true ≡ ok d
      → d ≢ null
      → Created t path w p
      → get_path w path false ≡ ok null
  unfolding walk
  Created-missing path d short bad e f g (found p e' h) = absurd (h (let z = sym e ∙ e' in cc))
  Created-missing path d short bad e f g (orphan e' f') = e'
  Created-missing path d short bad e f g (made d' w e' f' live hung) =
      elim (last-cases (cut path []) (cut-AllNamed path [])) [
        | inl nothing ↦
            let z = rw nothing at whole in absurd (ne_null_of_Live t v.root t.root_live (cc z))
        | inr (x, split, named) ↦
            let (r, s, _) = step-Arrives t d' x live in
            let to_r = walk-append v v.root d' r (drop_last (cut path [])) x dir ne s in
            let nowhere : r ≡ null = cc (sym to_r ∙ ap (walk v v.root) (sym split) ∙ whole) in
            let still =
              step-null t d' (basename path) live hung x (s ∙ ap ok nowhere) named
                (not_sought x named) in
            get_path-walk w path false short.components
            ∙ ap (walk w w.root) split
            ∙ walk-append w w.root d' null (drop_last (cut path [])) x dir_w ne still
      ]
    where
      dir : walk v v.root (drop_last (cut path [])) ≡ ok d'
      dir = sym (get_path-walk v path true short.components) ∙ f'

      ne : d' ≢ null
      ne = ne_null_of_Live t d' live

      dir_w : walk w w.root (drop_last (cut path [])) ≡ ok d'
      dir_w =
          let x = IsHung-Extends t d' (basename path) hung in
          ap (λ r. walk w r (drop_last (cut path []))) x.same_root
          ∙ walk-stable t x (drop_last (cut path [])) v.root d' t.root_live dir ne

      not_sought : (x : Text) → x ≢ [] → (same (basename path) x ≡ false) ⊎ (x ≡ codes "..")
      not_sought x named = elim (Bool-cases (same (basename path) x)) [
        | inr s ↦ inl s
        | inl s ↦ elim bad [
          | inl z ↦ absurd (named (sym (eq_of_same (basename path) x s) ∙ z))
          | inr z ↦ inr (sym (eq_of_same (basename path) x s) ∙ z)
        ]
      ]

      whole : walk v v.root (cut path []) ≡ ok null
      whole = sym (get_path-walk v path false short.components) ∙ e'

  -- For a path of a tree that fits the arrays and ends in a slash or in `..`, where it is missing
  -- and its directory exists: the creation reports a node, and the path is missing still.
  pub create-missing :
      (path : Text) (d : Ptr)
      → IsShort path
      → (basename path ≡ []) ⊎ (basename path ≡ codes "..")
      → get_path v path false ≡ ok null
      → get_path v path true ≡ ok d
      → d ≢ null
      → (w : Vfs) × (p : Ptr) × (create v path ≡ ok (w, p))
        × (p ≢ null)
        × (get_path w path false ≡ ok null)
  create-missing path d short bad e f g =
      let (w, p, made_it, c) = create-Created t path short in
      (w, p, made_it, Created-ne_null t path d f g c, Created-missing path d short bad e f g c)
