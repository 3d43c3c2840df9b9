-- ===== src/Vfs/Tree/Below.antt =====
-- Which nodes lie below a node, along the parent pointers, and the file contents that a change keeps.
use umka_os.Base.{
  ℕ, ◌<◌, ◌≤◌, ◌≡◌, ◌≢◌, refl, sym, ◌∙◌, ap, ◌⊎◌, inl, inr, some, List, arith, subst, zero-cases,
  eq-cases, Text,
}
use umka_os.Vfs.{Ptr, null, Node, Vfs, put, Live, IsTree}
use umka_os.Vfs.Change.{Extends, nodes-put_self, nodes-put_other}
use umka_os.Vfs.Tree.{calloc_node}
use umka_os.Vfs.Tree.Create.{Created, found, orphan, made}
use umka_os.Vfs.Tree.Child.{IsChild}
use umka_os.Vfs.Tree.Grow.{IsHung, first, behind, calloc_node-old}

-- `p` is `c`, or below it, each node made later than its parent.
pub data Below (v : Vfs) (c : Ptr) : Ptr → Type 0 where
  here : Below v c c
  under :
      (p : Ptr) (n : Node) → v.nodes p ≡ some n → n.parent < p → Below v c n.parent → Below v c p

pub Below-le : {v : Vfs} {c p : Ptr} → Below v c p → c ≤ p
Below-le here = omega arith
Below-le (under p n holds lt b) = omega (arith, Below-le b)

pub Below-trans : {v : Vfs} {a b c : Ptr} → Below v a b → Below v b c → Below v a c
Below-trans x here = x
Below-trans x (under p n holds lt y) = under p n holds lt (Below-trans x y)

pub IsChild-Below : {v : Vfs} {d p : Ptr} {name : Text} → IsChild v d name p → Below v d p
IsChild-Below {v} {d} {p} c =
    under p c.node c.holds (omega (arith, c.later, c.parent))
      (subst (Below v d) (sym c.parent) here)

-- Of two nodes above a third one is above the other.
Below-linear : {v : Vfs} {a b p : Ptr} → Below v a p → Below v b p → Below v a b ⊎ Below v b a
Below-linear here y = inr y
Below-linear (under p n holds lt x) here = inl (under p n holds lt x)
Below-linear {v} {a} {b} (under p n holds lt x) (under p' m holds' lt' y) =
    let one : m ≡ n = cc in Below-linear x (subst (λ k. Below v b k.parent) one y)

-- A node below a child of `d` is below no other child of `d`.
child_above :
    {v : Vfs} {d q c : Ptr} {name : Text} (k : Node)
    → IsChild v d name q
    → v.nodes c ≡ some k
    → k.parent ≡ d
    → d < c
    → Below v c q
    → c ≡ q
child_above k x holds parent later here = refl
child_above {d = d} {c = c} k x holds parent later (under q n holds' lt b) =
    let one : x.node ≡ n = let e = x.holds in cc in
    absurd (omega (arith, Below-le b, x.parent, ap (λ m. m.parent) one))

pub child_unique :
    {v : Vfs} {d q c p : Ptr} {name : Text} (k : Node)
    → IsChild v d name q
    → Below v q p
    → v.nodes c ≡ some k
    → k.parent ≡ d
    → d < c
    → Below v c p
    → c ≡ q
child_unique {v} {d} {q} {c} {p} k x over holds parent later b = elim (Below-linear b over) [
  | inl above ↦ child_above k x holds parent later above
  | inr above ↦
      let y : IsChild v d k.filename c = record {
        node = k;
        holds = holds;
        later = later;
        parent = parent;
        filename = refl;
      } in
      sym (child_above x.node y x.holds x.parent x.later above)
]

-- The file `p` holds the bytes.
abbrev pub Holds : Vfs → Ptr → List ℕ → Type 0
Holds v p bytes = (n : Node) × (v.nodes p ≡ some n) × (n.content ≡ bytes)

pub put-Holds :
    (v : Vfs) (p : Ptr) (n m : Node)
    → v.nodes p ≡ some n
    → m.content ≡ n.content
    → (r : Ptr) (bytes : List ℕ) → Holds v r bytes
    → Holds (put v p m) r bytes
put-Holds v p n m holds same r bytes (k, e, c) = elim (eq-cases r p) [
  | inl h ↦
      let one : k ≡ n = let e' = rw h at e in cc in
      (m, rw h (nodes-put_self v p m), same ∙ sym (ap (λ x. x.content) one) ∙ c)
  | inr h ↦ (k, nodes-put_other v p m r h ∙ e, c)
]

pub put-Holds_other :
    (v : Vfs) (p : Ptr) (m : Node) (r : Ptr) (bytes : List ℕ)
    → r ≢ p
    → Holds v r bytes
    → Holds (put v p m) r bytes
put-Holds_other v p m r bytes h (k, e, c) = (k, nodes-put_other v p m r h ∙ e, c)

module _ {v : Vfs} (t : IsTree v) where
  IsHung-Holds :
      (d : Ptr) (name : Text) {w : Vfs}
      → IsHung t d name w
      → (r : Ptr) (bytes : List ℕ) → Holds v r bytes
      → Holds w r bytes
  IsHung-Holds d name (first n holds empty e) r bytes (k, f, c) =
      subst (λ x. Holds x r bytes) (sym e)
        (put-Holds (calloc_node v d name) d n _ (calloc_node-old t d name d n holds) refl r bytes
          (k, calloc_node-old t d name r k f, c))
  IsHung-Holds d name (behind n last l holds g walk z e) r bytes (k, f, c) =
      subst (λ x. Holds x r bytes) (sym e)
        (put-Holds (calloc_node v d name) last l.node _
          (calloc_node-old t d name last l.node l.holds) refl r bytes
          (k, calloc_node-old t d name r k f, c))

  -- Making a node changes no file.
  pub Created-Holds :
      (path : Text) {w : Vfs} {p : Ptr}
      → Created t path w p
      → (r : Ptr) (bytes : List ℕ) → Holds v r bytes
      → Holds w r bytes
  Created-Holds path (found p e g) r bytes h = h
  Created-Holds path (orphan e f) r bytes h = h
  Created-Holds path (made d w e f live hung) r bytes h = IsHung-Holds d _ hung r bytes h

  null-free : {k : Node} → v.nodes null ≢ some k
  null-free e = cc (t.null_free)

module _ {v w : Vfs} (t : IsTree v) (u : IsTree w) (x : Extends v w) where
  Below-back_at :
      {c p' : Ptr} (p : Ptr) → Live w c → Live v p → Below w c p' → p' ≡ p → Below v c p × Live v c
  Below-back_at {c} p live_c live here e = (subst (Below v c) e here, subst (Live v) (sym e) live)
  Below-back_at {c} p live_c (n, holds_v) (under p' m holds lt b) e =
      let (m', f, kept) = x.kept p n holds_v in
      let one : m ≡ m' = let e' = rw e at holds in cc in
      let same_parent : m.parent ≡ n.parent = ap (λ k. k.parent) one ∙ kept.parent in
      elim (zero-cases n.parent) [
        | inl z ↦
            let top : c ≡ null = omega (arith, Below-le b) in
            absurd (null-free u (subst (λ y. w.nodes y ≡ some live_c.0) top live_c.1))
        | inr g ↦
            let (b', live') =
              Below-back_at n.parent live_c (t.parent_live p n holds_v g) b same_parent in
            (under p n holds_v (omega arith) b', live')
      ]

  -- Where a node that is not new lies below another now, it did so before.
  pub Below-back : {c p : Ptr} → Live w c → Live v p → Below w c p → Below v c p × Live v c
  Below-back {p = p} live_c live b = Below-back_at p live_c live b refl

-- A node below another stays so.
pub Below-Extends : {v w : Vfs} {c p : Ptr} → Extends v w → Below v c p → Below w c p
Below-Extends x here = here
Below-Extends {v} {w} {c} x (under p n holds lt b) =
    let (m, f, kept) = x.kept p n holds in
    under p m f (omega (arith, kept.parent))
      (subst (Below w c) (sym kept.parent) (Below-Extends x b))

pub IsChild-Extends :
    {v w : Vfs} {d p : Ptr} {name : Text} → Extends v w → IsChild v d name p → IsChild w d name p
IsChild-Extends {p = p} x c =
    let (m, f, kept) = x.kept p c.node c.holds in
    record {
      node = m;
      holds = f;
      later = c.later;
      parent = kept.parent ∙ c.parent;
      filename = kept.filename ∙ c.filename;
    }
