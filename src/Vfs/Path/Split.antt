-- ===== src/Vfs/Path/Split.antt =====
-- The components of a path and its base name.
use mathlib.Core.List.{concat-ne-nil}
use umka_os.Base.{
  ◌≡◌, ◌≢◌, refl, sym, ◌∙◌, inl, inr, ap, List, [], ◌∷◌, ◌++◌, arith, ◌==◌, append-nil,
  append_assoc, Bool-cases, Text, slash, if◌then◌else◌, ok, >>=-eq-ok, zero-cases, ==-false,
}
use umka_os.Vfs.{Ptr, null, Vfs}
use umka_os.Vfs.Path.{push, cut, drop_last, base_loop, basename, walk, step}

drop_last-push :
    (cur : Text) (rest : List Text)
    → rest ≢ []
    → drop_last (push cur rest) ≡ push cur (drop_last rest)
unfolding drop_last push
drop_last-push [] rest h = refl
drop_last-push (c ∷ cur) [] h = absurd (h refl)
drop_last-push (c ∷ cur) (x ∷ rest) h = refl

pub push-append : (cur : Text) (xs ys : List Text) → push cur xs ++ ys ≡ push cur (xs ++ ys)
unfolding push
push-append [] xs ys = refl
push-append (c ∷ cur) xs ys = refl

push-last :
    (cur : Text) (xs : List Text) (x : Text)
    → xs ≡ drop_last xs ++ x ∷ []
    → push cur xs ≡ drop_last (push cur xs) ++ x ∷ []
push-last cur xs x e =
    rw (drop_last-push cur xs (λ z. concat-ne-nil x (drop_last xs) (sym e ∙ z)), push-append cur)
      (ap (push cur) e)

-- `vfsBasename` keeps what follows the last slash: the current component with the rest.
cut-base_loop :
    (s cur : Text)
    → base_loop s (cur ++ s) ≢ []
    → cut s cur ≡ drop_last (cut s cur) ++ base_loop s (cur ++ s) ∷ []
unfolding cut base_loop
cut-base_loop [] [] h = absurd (h refl)
cut-base_loop [] (c ∷ cur) h = unfold push drop_last in rw append-nil refl
cut-base_loop (c ∷ s) cur h = elim (Bool-cases (c == slash)) [
  | inl e ↦
      let ih = cut-base_loop s [] (rw e at h) in
      rw (cut, e) (push-last cur (cut s []) (base_loop s s) ih)
  | inr e ↦
      let assoc = append_assoc cur (c ∷ []) s in
      let ih = cut-base_loop s (cur ++ c ∷ []) (rw (e, ← assoc) at h) in rw (cut, e, ← assoc) ih
]

-- A path that does not end in a slash: its last component is its base name.
pub cut-basename :
    (path : Text) → basename path ≢ [] → cut path [] ≡ drop_last (cut path []) ++ basename path ∷ []
unfolding basename
cut-basename path h = cut-base_loop path [] h

-- A walk goes first to the directory, then one step on.
pub walk-append :
    (v : Vfs) (p q r : Ptr) (names : List Text) (name : Text)
    → walk v p names ≡ ok q
    → q ≢ null
    → step v q name ≡ ok r
    → walk v p (names ++ name ∷ []) ≡ ok r
unfolding walk
walk-append v p q r [] name e h f = ground arith
walk-append v p q r (x ∷ names) name e h f =
    let (a, s, g) = >>=-eq-ok (step v p x) (λ p. if p == null then ok null else walk v p names) e in
    elim (zero-cases a) [
      | inl z ↦ absurd (h (let g' = rw z at g in cc))
      | inr z ↦
          rw (s, ==-false a null z)
            (walk-append v a q r names name (rw (==-false a null z) at g) h f)
    ]
