-- ===== src/Loader/Fuel.antt =====
-- Every round of the loader passes over a byte of the image, so the bound on its rounds is enough.
use umka_os.Base.{
  ℕ, zero, suc, ◌≤◌, ◌≡◌, refl, inl, inr, List, [], ◌∷◌, ◌==◌, arith, Bool-cases, leb, length,
  length-drop, Text, Res, ok, fault, ◌>>=◌, Bounded, >>=-Bounded, Bounded-le, >>=-same, any-Bounded,
  ap, ◌∙◌, if◌then◌else◌,
}
use umka_os.Vfs.{Vfs}
use umka_os.Vfs.Tree.{create}
use umka_os.Fmt.Printf.Argument.{Doubles}
use umka_os.Loader.{take_name, take_size, take_bytes, put_file, join, load_file, enter_dir, load}

take_name-Bounded : (p : List ℕ) → Bounded (λ r. length r.1) (length p) (take_name p)
unfolding take_name
take_name-Bounded [] = tt
take_name-Bounded (c ∷ p) = elim (Bool-cases (c == 0)) [
  | inl e ↦ rw (take_name, e) (omega arith)
  | inr e ↦
      rw (take_name, e)
        (>>=-Bounded (λ r. length r.1) (λ r. length r.1) (length p) (suc (length p)) (take_name p)
          (λ (name, rest). ok (c ∷ name, rest)) (take_name-Bounded p) (λ r h. omega arith))
]

take_size-Bounded : (p : List ℕ) → Bounded (λ r. length r.1) (length p) (take_size p)
unfolding take_size
take_size-Bounded [] = tt
take_size-Bounded (a ∷ []) = tt
take_size-Bounded (a ∷ b ∷ []) = tt
take_size-Bounded (a ∷ b ∷ c ∷ []) = tt
take_size-Bounded (a ∷ b ∷ c ∷ e ∷ p) = omega arith

take_bytes-Bounded :
    (size : ℕ) (p : List ℕ) → Bounded (λ r. length r.1) (length p) (take_bytes size p)
unfolding take_bytes
take_bytes-Bounded size p = elim (Bool-cases (leb size (length p))) [
  | inl e ↦ rw (take_bytes, e) (omega (arith, length-drop size p))
  | inr e ↦ rw (take_bytes, e) tt
]

module _ {D : Type 0} (d : Doubles D) where
  -- The part of the image that a round leaves.
  abbrev pub left : List ℕ × Vfs → ℕ
  left r = length r.0

  pub load_file-Bounded :
      (p : List ℕ) (path : Text) (v : Vfs) → Bounded left (length p) (load_file d p path v)
  unfolding load_file
  load_file-Bounded p path v =
      let n = length p in
      >>=-Bounded (λ r. length r.1) left n n (take_name p) _ (take_name-Bounded p)
        (λ (name, p1) h1.
          >>=-Bounded (λ r. 0) left 0 n (join d path name) _ (any-Bounded (join d path name))
            (λ temp _.
              >>=-Bounded (λ r. length r.1) left (length p1) n (take_size p1) _
                (take_size-Bounded p1)
                (λ (size, p2) h2.
                  >>=-Bounded (λ r. length r.1) left (length p2) n (take_bytes size p2) _
                    (take_bytes-Bounded size p2)
                    (λ (bytes, rest) h3.
                      >>=-Bounded (λ r. 0) left 0 n (put_file v temp bytes) (λ w. ok (rest, w))
                        (any-Bounded (put_file v temp bytes)) (λ w _. omega arith)))))

  pub enter_dir-Bounded :
      (p : List ℕ) (path : Text) (v : Vfs)
      → Bounded (λ r. length r.0) (length p) (enter_dir d p path v)
  unfolding enter_dir
  enter_dir-Bounded p path v =
      let n = length p in
      >>=-Bounded (λ r. length r.1) (λ r. length r.0) n n (take_name p) _ (take_name-Bounded p)
        (λ (name, rest) h.
          >>=-Bounded (λ r. 0) (λ r. length r.0) 0 n (join d path name) _
            (any-Bounded (join d path name))
            (λ temp _.
              >>=-Bounded (λ r. 0) (λ r. length r.0) 0 n (create v temp)
                (λ (w, q). ok (rest, temp, w)) (any-Bounded (create v temp)) (λ r _. h)))

  pub load-Bounded :
      (k : ℕ) (p : List ℕ) (path : Text) (v : Vfs) → Bounded left (length p) (load d k p path v)
  unfolding load
  load-Bounded k [] path v = omega arith
  load-Bounded zero (c ∷ p) path v = tt
  load-Bounded (suc k) (c ∷ p) path v =
      let n = length p in
      let m = suc (length p) in
      let later : (p' : List ℕ) (path' : Text) (v' : Vfs)
          → length p' ≤ n
          → Bounded left m (load d k p' path' v') =
        λ p' path' v' h.
          Bounded-le left (length p') m (load d k p' path' v') (omega arith)
            (load-Bounded k p' path' v') in
      elim (Bool-cases (c == b'p')) [
        | inl e ↦ rw (load, e) (omega arith)
        | inr e ↦ elim (Bool-cases (c == b'd')) [
          | inl f ↦
              rw (load, e, f)
                (>>=-Bounded (λ r. length r.0) left n m (enter_dir d p path v) _
                  (enter_dir-Bounded p path v)
                  (λ (rest, temp, w) h.
                    >>=-Bounded left left (length rest) m (load d k rest temp w) _
                      (load-Bounded k rest temp w)
                      (λ (rest', w') g. later rest' path w' (omega arith))))
          | inr f ↦ elim (Bool-cases (c == b'f')) [
            | inl g ↦
                rw (load, e, f, g)
                  (>>=-Bounded left left n m (load_file d p path v) _ (load_file-Bounded p path v)
                    (λ (rest, w) h. later rest path w h))
            | inr g ↦ rw (load, e, f, g) tt
          ]
        ]
      ]

  load-enough :
      (k k' : ℕ) (p : List ℕ) (path : Text) (v : Vfs)
      → length p ≤ k
      → length p ≤ k'
      → load d k p path v ≡ load d k' p path v
  unfolding load
  load-enough k k' [] path v h h' = refl
  load-enough zero k' (c ∷ p) path v h h' = absurd (omega arith)
  load-enough (suc k) zero (c ∷ p) path v h h' = absurd (omega arith)
  load-enough (suc k) (suc k') (c ∷ p) path v h h' =
      let n = length p in
      elim (Bool-cases (c == b'p')) [
        | inl e ↦ rw (load, e) refl
        | inr e ↦ elim (Bool-cases (c == b'd')) [
          | inl f ↦
              rw (load, e, f)
                (>>=-same (λ r. length r.0) n (enter_dir d p path v) _ _
                  (enter_dir-Bounded p path v)
                  (λ (rest, temp, w) g.
                    ap (λ r. r >>= (λ (rest', w'). load d k rest' path w'))
                      (load-enough k k' rest temp w (omega arith) (omega arith))
                    ∙ >>=-same left (length rest) (load d k' rest temp w) _ _
                        (load-Bounded k' rest temp w)
                        (λ (rest', w') g'.
                          load-enough k k' rest' path w' (omega arith) (omega arith))))
          | inr f ↦ elim (Bool-cases (c == b'f')) [
            | inl g ↦
                rw (load, e, f, g)
                  (>>=-same left n (load_file d p path v) _ _ (load_file-Bounded p path v)
                    (λ (rest, w) s. load-enough k k' rest path w (omega arith) (omega arith)))
            | inr g ↦ rw (load, e, f, g) refl
          ]
        ]
      ]

  -- The loader with the rounds that it is given.
  abbrev pub load_all : List ℕ → Text → Vfs → Res (List ℕ × Vfs)
  load_all p path v = load d (length p) p path v

  -- With the length of the image as the bound on its rounds the loader never uses up the bound: it
  -- is equal to its unrolling without one, which returns behind a `p`, and else goes on with what
  -- the directory (loaded in the same way) or the file leaves of the image, or faults.
  pub load-unrolled :
      (c : ℕ) (p : List ℕ) (path : Text) (v : Vfs)
      → load_all (c ∷ p) path v ≡ (
          if c == b'p'
          then ok (p, v)
          else if c == b'd'
          then (enter_dir d p path v >>= λ (rest, temp, w).
              load_all rest temp w >>= λ (rest', w'). load_all rest' path w')
          else if c == b'f'
          then (load_file d p path v >>= λ (rest, w). load_all rest path w)
          else fault)
  unfolding load
  load-unrolled c p path v =
      let n = length p in
      elim (Bool-cases (c == b'p')) [
        | inl e ↦ rw (load, e) refl
        | inr e ↦ elim (Bool-cases (c == b'd')) [
          | inl f ↦
              rw (load, e, f)
                (>>=-same (λ r. length r.0) n (enter_dir d p path v) _ _
                  (enter_dir-Bounded p path v)
                  (λ (rest, temp, w) g.
                    ap (λ r. r >>= (λ (rest', w'). load d n rest' path w'))
                      (load-enough n (length rest) rest temp w g (omega arith))
                    ∙ >>=-same left (length rest) (load_all rest temp w) _ _
                        (load-Bounded (length rest) rest temp w)
                        (λ (rest', w') g'.
                          load-enough n (length rest') rest' path w' (omega arith) (omega arith))))
          | inr f ↦ elim (Bool-cases (c == b'f')) [
            | inl g ↦
                rw (load, e, f, g)
                  (>>=-same left n (load_file d p path v) _ _ (load_file-Bounded p path v)
                    (λ (rest, w) s. load-enough n (length rest) rest path w s (omega arith)))
            | inr g ↦ rw (load, e, f, g) refl
          ]
        ]
      ]
