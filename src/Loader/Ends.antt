-- ===== src/Loader/Ends.antt =====
-- The loader ends on every image.
use umka_os.Base.{
  ℕ, zero, suc, ◌≤◌, ◌≡◌, ◌≢◌, sym, subst, inl, inr, List, [], ◌∷◌, arith, ==-false, eq-cases,
  length, Text, Res, ok, fault, Res-cases, Bounded,
}
use umka_os.Vfs.{Vfs}
use umka_os.Fmt.Printf.Argument.{Doubles}
use umka_os.Loader.{load_file, enter_dir, load}
use umka_os.Loader.Fuel.{load_file-Bounded, enter_dir-Bounded, load-Bounded, load_all}

module _ {D : Type 0} (d : Doubles D) where
  -- The loader with no bound on its rounds, as what a finite run can give.
  pub data Loads : List ℕ → Text → Vfs → Res (List ℕ × Vfs) → Type 0 where
    ends : (path : Text) (v : Vfs) → Loads [] path v (ok ([], v))
    up : (p : List ℕ) (path : Text) (v : Vfs) → Loads (b'p' ∷ p) path v (ok (p, v))
    dir_stuck :
        (p : List ℕ) (path : Text) (v : Vfs)
        → enter_dir d p path v ≡ fault
        → Loads (b'd' ∷ p) path v fault
    inner_stuck :
        (p : List ℕ) (path : Text) (v : Vfs) (rest : List ℕ) (temp : Text) (w : Vfs)
        → enter_dir d p path v ≡ ok (rest, temp, w)
        → Loads rest temp w fault
        → Loads (b'd' ∷ p) path v fault
    dir :
        (p : List ℕ) (path : Text) (v : Vfs) (rest : List ℕ) (temp : Text) (w : Vfs)
        (rest' : List ℕ) (w' : Vfs) (r : Res (List ℕ × Vfs))
        → enter_dir d p path v ≡ ok (rest, temp, w)
        → Loads rest temp w (ok (rest', w'))
        → Loads rest' path w' r
        → Loads (b'd' ∷ p) path v r
    file_stuck :
        (p : List ℕ) (path : Text) (v : Vfs)
        → load_file d p path v ≡ fault
        → Loads (b'f' ∷ p) path v fault
    file :
        (p : List ℕ) (path : Text) (v : Vfs) (rest : List ℕ) (w : Vfs) (r : Res (List ℕ × Vfs))
        → load_file d p path v ≡ ok (rest, w)
        → Loads rest path w r
        → Loads (b'f' ∷ p) path v r
    unknown :
        (c : ℕ) (p : List ℕ) (path : Text) (v : Vfs)
        → c ≢ b'p'
        → c ≢ b'd'
        → c ≢ b'f'
        → Loads (c ∷ p) path v fault

  -- All calls on images of at most `k` bytes end.
  abbrev Ends : ℕ → Type 0
  Ends k = (p : List ℕ) (path : Text) (v : Vfs) → length p ≤ k → Loads p path v (load d k p path v)

  dir-Loads :
      (k : ℕ) (p : List ℕ) (path : Text) (v : Vfs)
      → length p ≤ k
      → Ends k
      → Loads (b'd' ∷ p) path v (load d (suc k) (b'd' ∷ p) path v)
  unfolding load
  dir-Loads k p path v h all = elim (Res-cases (enter_dir d p path v)) [
    | inl e ↦ rw (e) (dir_stuck p path v e)
    | inr ((rest, temp, w), e) ↦
        let le = subst (Bounded (λ r. length r.0) (length p)) e (enter_dir-Bounded d p path v) in
        let inner = all rest temp w (omega (arith, le)) in
        elim (Res-cases (load d k rest temp w)) [
          | inl f ↦
              rw (e, f) (inner_stuck p path v rest temp w e (subst (Loads rest temp w) f inner))
          | inr ((rest', w'), f) ↦
              let le' =
                subst (Bounded (λ r. length r.0) (length rest)) f (load-Bounded d k rest temp w) in
              rw (e, f)
                (dir p path v rest temp w rest' w' (load d k rest' path w') e
                  (subst (Loads rest temp w) f inner) (all rest' path w' (omega (arith, le, le'))))
        ]
  ]

  file-Loads :
      (k : ℕ) (p : List ℕ) (path : Text) (v : Vfs)
      → length p ≤ k
      → Ends k
      → Loads (b'f' ∷ p) path v (load d (suc k) (b'f' ∷ p) path v)
  unfolding load
  file-Loads k p path v h all = elim (Res-cases (load_file d p path v)) [
    | inl e ↦ rw (e) (file_stuck p path v e)
    | inr ((rest, w), e) ↦
        let le = subst (Bounded (λ r. length r.0) (length p)) e (load_file-Bounded d p path v) in
        rw (e) (file p path v rest w (load d k rest path w) e (all rest path w (omega (arith, le))))
  ]

  load-Loads : (k : ℕ) → Ends k
  unfolding load
  load-Loads k [] path v h = ends path v
  load-Loads zero (c ∷ p) path v h = absurd (omega arith)
  load-Loads (suc k) (c ∷ p) path v h =
      let cases : ℕ → Type 0 = λ z. Loads (z ∷ p) path v (load d (suc k) (z ∷ p) path v) in
      elim (eq-cases c b'p') [
        | inl e ↦ subst cases (sym e) (up p path v)
        | inr e ↦ elim (eq-cases c b'd') [
          | inl f ↦ subst cases (sym f) (dir-Loads k p path v (omega arith) (load-Loads k))
          | inr f ↦ elim (eq-cases c b'f') [
            | inl g ↦ subst cases (sym g) (file-Loads k p path v (omega arith) (load-Loads k))
            | inr g ↦
                rw (load, ==-false c b'p' e, ==-false c b'd' f, ==-false c b'f' g)
                  (unknown c p path v e f g)
          ]
        ]
      ]

  -- The loader ends on every image, from every path and file system, and what it gives with the length
  -- of the image as the bound on its rounds is what the loader without a bound gives, a fault included:
  -- it returns behind a `p` and at the end of the image, goes on with what a file or a directory,
  -- loaded in the same way, leaves, and faults on any other letter.
  pub load_all-Loads : (p : List ℕ) (path : Text) (v : Vfs) → Loads p path v (load_all d p path v)
  load_all-Loads p path v = load-Loads (length p) p path v (omega arith)
