-- ===== src/Vfs/Path/Join.antt =====
-- The path of an entry: a path, a slash and a name.
use umka_os.Base.{
  ◌+◌, ◌≡◌, ◌≢◌, refl, sym, ◌∙◌, ap, inl, inr, List, [], ◌∷◌, ◌++◌, append_assoc, append-nil,
  ==-false, Bool-cases, length, length-append, ◌==◌, Text, slash,
}
use umka_os.Vfs.Path.{push, cut, drop_last, base_loop, basename}
use umka_os.Vfs.Path.Split.{push-append}

-- A name without a slash.
abbrev pub IsFlat : Text → Type 0
IsFlat [] = Unit
IsFlat (c ∷ name) = (c ≢ slash) × IsFlat name

cut-flat : (name cur : Text) → IsFlat name → cut name cur ≡ push (cur ++ name) []
unfolding cut
cut-flat [] cur h = ap (λ l. push l []) (sym (append-nil cur))
cut-flat (c ∷ name) cur (ne, h) =
    rw (cut, ==-false c slash ne)
      (cut-flat name (cur ++ c ∷ []) h ∙ ap (λ l. push l []) (append_assoc cur (c ∷ []) name))

push-one : (name : Text) → name ≢ [] → push name [] ≡ name ∷ []
unfolding push
push-one [] h = absurd (h refl)
push-one (c ∷ name) h = refl

cut-join_from :
    (s cur name : Text)
    → IsFlat name
    → name ≢ []
    → cut (s ++ slash ∷ name) cur ≡ cut s cur ++ name ∷ []
unfolding cut
cut-join_from [] cur name h some =
    rw (cut, cut-flat name [] h, push-one name some, push-append cur [] (name ∷ [])) refl
cut-join_from (c ∷ s) cur name h some = elim (Bool-cases (c == slash)) [
  | inl e ↦ rw (cut, e, cut-join_from s [] name h some, push-append cur (cut s []) (name ∷ [])) refl
  | inr e ↦ rw (cut, e) (cut-join_from s (cur ++ c ∷ []) name h some)
]

-- The components of an entry's path are those of its directory, and its name.
pub cut-join :
    (path name : Text)
    → IsFlat name
    → name ≢ []
    → cut (path ++ slash ∷ name) [] ≡ cut path [] ++ name ∷ []
cut-join path name h some = cut-join_from path [] name h some

base_loop-flat : (name base : Text) → IsFlat name → base_loop name base ≡ base
unfolding base_loop
base_loop-flat [] base h = refl
base_loop-flat (c ∷ name) base (ne, h) = rw (==-false c slash ne) (base_loop-flat name base h)

base_loop-join : (s name base : Text) → IsFlat name → base_loop (s ++ slash ∷ name) base ≡ name
unfolding base_loop
base_loop-join [] name base h = base_loop-flat name name h
base_loop-join (c ∷ s) name base h = base_loop-join s name _ h

pub basename-join : (path name : Text) → IsFlat name → basename (path ++ slash ∷ name) ≡ name
unfolding basename
basename-join path name h = base_loop-join path name (path ++ slash ∷ name) h

pub drop_last-append : (names : List Text) (name : Text) → drop_last (names ++ name ∷ []) ≡ names
unfolding drop_last
drop_last-append [] name = refl
drop_last-append (x ∷ []) name = refl
drop_last-append (x ∷ y ∷ names) name = ap (λ l. x ∷ l) (drop_last-append (y ∷ names) name)

pub length-join :
    (path name : Text)
    → IsFlat name
    → name ≢ []
    → length (cut (path ++ slash ∷ name) []) ≡ length (cut path []) + 1
length-join path name h some =
    ap (λ l. length l) (cut-join path name h some) ∙ length-append (cut path []) (name ∷ [])
