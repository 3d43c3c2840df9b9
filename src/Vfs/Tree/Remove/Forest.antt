-- ===== src/Vfs/Tree/Remove/Forest.antt =====
-- The nodes below a directory, as the pointers give them, and what `vfsFree` does to them.
use umka_os.Base.{
  ℕ, zero, suc, ◌+◌, ◌*◌, ◌<◌, ◌≡◌, ◌≢◌, refl, sym, ◌∙◌, ap, none, some, arith, ==-false, ==_refl,
  ok,
}
use umka_os.Vfs.{Ptr, null, Node, Vfs, put}
use umka_os.Vfs.Change.{nodes-put_self, nodes-put_other}
use umka_os.Vfs.Tree.{set_child, unlink, detach, free, free_children, drop_node}
use umka_os.Vfs.Tree.Remove.Chain.{nodes-drop_other, nodes-drop_self}

-- A list of nodes, each with the list of the nodes below it.
pub data Forest : Type 0 where
  bare : Forest
  grows : Ptr → Forest → Forest → Forest

abbrev pub size : Forest → ℕ
size bare = 0
size (grows p inner rest) = 1 + size inner + size rest

-- The list from `c` on in the directory `d` is the forest.
abbrev pub Hangs : Vfs → Ptr → Ptr → Forest → Type 0
Hangs v d c bare = c ≡ null
Hangs v d c (grows p inner rest) =
    (c ≡ p)
    × (p ≢ null)
    × ((n : Node) × (v.nodes p ≡ some n)
        × (n.parent ≡ d)
        × Hangs v p n.child inner
        × Hangs v d n.sibling rest)

-- The node is not in the forest.
abbrev pub Avoids : Ptr → Forest → Type 0
Avoids q bare = Unit
Avoids q (grows p inner rest) = (q ≢ p) × Avoids q inner × Avoids q rest

-- No node of the second forest is in the first.
abbrev pub Disjoint : Forest → Forest → Type 0
Disjoint f bare = Unit
Disjoint f (grows p inner rest) = Avoids p f × Disjoint f inner × Disjoint f rest

-- Every node is in the forest once.
abbrev pub Separate : Forest → Type 0
Separate bare = Unit
Separate (grows p inner rest) =
    Avoids p inner
    × Avoids p rest
    × Disjoint inner rest
    × Disjoint rest inner
    × Separate inner
    × Separate rest

-- The nodes of the forest are gone.
abbrev pub Gone : Vfs → Forest → Type 0
Gone v bare = Unit
Gone v (grows p inner rest) = (v.nodes p ≡ none) × Gone v inner × Gone v rest

-- The forest hangs there still when its nodes are kept.
pub Hangs-same :
    (f : Forest) (v w : Vfs) (e : Forest) (d c : Ptr)
    → ((q : Ptr) → Avoids q e → w.nodes q ≡ v.nodes q)
    → Disjoint e f
    → Hangs v d c f
    → Hangs w d c f
Hangs-same bare v w e d c same apart h = h
Hangs-same (grows p inner rest) v w e d c same (away, apart, apart')
      (at_p, ne, (n, holds, up, h, g)) =
    (
      at_p,
      ne,
      (
        n,
        same p away ∙ holds,
        up,
        Hangs-same inner v w e p n.child same apart h,
        Hangs-same rest v w e d n.sibling same apart' g,
      ),
    )

pub Gone-same :
    (f : Forest) (v w : Vfs) (e : Forest)
    → ((q : Ptr) → Avoids q e → w.nodes q ≡ v.nodes q)
    → Disjoint e f
    → Gone v f
    → Gone w f
Gone-same bare v w e same apart h = tt
Gone-same (grows p inner rest) v w e same (away, apart, apart') (h, g, k) =
    (same p away ∙ h, Gone-same inner v w e same apart g, Gone-same rest v w e same apart' k)

-- One node as a forest.
abbrev pub single : Ptr → Forest
single p = grows p bare bare

pub Disjoint-single : (p : Ptr) (f : Forest) → Avoids p f → Disjoint (single p) f
Disjoint-single p bare h = tt
Disjoint-single p (grows q inner rest) (ne, h, g) =
    ((λ e. ne (sym e), tt, tt), Disjoint-single p inner h, Disjoint-single p rest g)

-- A node, a forest and another node as one forest.
abbrev pub with_two : Ptr → Forest → Ptr → Forest
with_two p f q = grows p f (single q)

Disjoint-with_two :
    (p q : Ptr) (f g : Forest)
    → Avoids p g
    → Disjoint f g
    → Avoids q g
    → Disjoint (with_two p f q) g
Disjoint-with_two p q f bare a b c = tt
Disjoint-with_two p q f (grows r inner rest) (a, a', a'') (b, b', b'') (c, c', c'') = (
  ((λ e. a (sym e)), b, ((λ e. c (sym e)), tt, tt)),
  Disjoint-with_two p q f inner a' b' c',
  Disjoint-with_two p q f rest a'' b'' c'',
)

unlink-first :
    (k : ℕ) (v : Vfs) (d p : Ptr) (n : Node)
    → p ≢ null
    → v.nodes p ≡ some n
    → unlink (suc k) v d p null p ≡ set_child v d n.sibling
unfolding unlink
unlink-first k v d p n some_node at_p = rw (unlink, ==-false p null some_node, at_p, ==_refl p) refl

-- The first node of a list is taken off it.
detach-first :
    (v : Vfs) (d p : Ptr) (dn n : Node)
    → v.nodes d ≡ some dn
    → d ≢ null
    → dn.child ≡ p
    → p ≢ null
    → v.nodes p ≡ some n
    → n.parent ≡ d
    → detach v p n ≡ ok (put v d (record dn { child = n.sibling }))
unfolding detach set_child
detach-first v d p dn n at_d some_dir first some_node at_p up =
    let at_parent = ap v.nodes up ∙ at_d in
    let real : n.parent ≢ null = λ e. some_dir (sym up ∙ e) in
    rw (==-false n.parent null real, at_parent, first)
      (unlink-first v.fresh v n.parent p n some_node at_p
        ∙ ap (λ z. set_child v z n.sibling) up
        ∙ rw (set_child, at_d) refl)

free_children-step :
    (k : ℕ) (v v1 w1 : Vfs) (p : Ptr) (n : Node)
    → p ≢ null
    → v.nodes p ≡ some n
    → detach v p n ≡ ok v1
    → v1.nodes p ≡ some n
    → free_children k v1 n.child ≡ ok w1
    → free_children (suc (suc k)) v p ≡ free_children (suc k) (drop_node w1 p) n.sibling
unfolding free free_children
free_children-step k v v1 w1 p n some_node holds detached still e =
    rw (free_children, ==-false p null some_node, holds, free, holds, detached, still, e) refl

-- What freeing the nodes of a directory leaves.
pub record Freed (v : Vfs) (d : Ptr) (dn : Node) (f : Forest) (w : Vfs) : Type 0 where
  pub gone : Gone w f
  pub at_dir : w.nodes d ≡ some (record dn { child = null })
  pub others : (q : Ptr) → q ≢ d → Avoids q f → w.nodes q ≡ v.nodes q

pub free_children-Freed :
    (f : Forest) (k : ℕ) (v : Vfs) (d c : Ptr) (dn : Node)
    → d ≢ null
    → v.nodes d ≡ some dn
    → dn.child ≡ c
    → Hangs v d c f
    → Avoids d f
    → Separate f
    → 2 * size f < k
    → (w : Vfs) × (free_children k v c ≡ ok w) × Freed v d dn f w
unfolding free free_children
free_children-Freed bare zero v d c dn some_dir at_d first h away sep enough = absurd (omega arith)
free_children-Freed bare (suc k) v d c dn some_dir at_d first h away sep enough = (
  v,
  rw h refl,
  record {
    gone = tt;
    at_dir = at_d ∙ ap (λ z. some (record dn { child = z })) (first ∙ h);
    others = λ q ne out. refl;
  },
)
free_children-Freed (grows p inner rest) zero v d c dn some_dir at_d first h away sep enough =
    absurd (omega arith)
free_children-Freed (grows p inner rest) (suc zero) v d c dn some_dir at_d first h away sep enough =
    absurd (omega arith)
free_children-Freed (grows p inner rest) (suc (suc k)) v d c dn some_dir at_d first
      (at_p, some_node, (n, holds, up, h, g)) (d_p, d_inner, d_rest)
      (p_inner, p_rest, inner_rest, rest_inner, sep, sep') enough =
    let p_d : p ≢ d = λ e. d_p (sym e) in
    let new : Node = record dn { child = n.sibling } in
    let v1 = put v d new in
    let still = nodes-put_other v d new p p_d ∙ holds in
    let (w1, e, r) =
      free_children-Freed inner k v1 p n.child n some_node still refl
        (Hangs-same inner v v1 (single d) p n.child (λ q (ne, _, _). nodes-put_other v d new q ne)
          (Disjoint-single d inner d_inner) h)
        p_inner sep (omega arith) in
    let v2 = drop_node w1 p in
    let kept = λ (q : Ptr) (q_p : q ≢ p) (out : Avoids q inner).
      nodes-drop_other w1 p q q_p ∙ r.others q q_p out in
    let at_d2 = kept d d_p d_inner ∙ nodes-put_self v d new in
    let (w, e', r') =
      free_children-Freed rest (suc k) v2 d n.sibling new some_dir at_d2 refl
        (Hangs-same rest v v2 (with_two p inner d) d n.sibling
          (λ q (q_p, out, (q_d, _, _)). kept q q_p out ∙ nodes-put_other v d new q q_d)
          (Disjoint-with_two p d inner rest p_rest inner_rest d_rest) g)
        d_rest sep' (omega arith) in
    (
      w,
      ap (free_children (suc (suc k)) v) at_p
          ∙ free_children-step k v v1 w1 p n some_node holds
              (detach-first v d p dn n at_d some_dir (first ∙ at_p) some_node holds up) still e
          ∙ e',
      record {
        gone = (
          r'.others p p_d p_rest ∙ nodes-drop_self w1 p,
          Gone-same inner w1 w (with_two p rest d)
              (λ q (q_p, out, (q_d, _, _)). r'.others q q_d out ∙ nodes-drop_other w1 p q q_p)
              (Disjoint-with_two p d rest inner p_inner rest_inner d_inner) r.gone,
          r'.gone,
        );
        at_dir = r'.at_dir;
        others = λ q q_d (q_p, out, out').
            r'.others q q_d out' ∙ kept q q_p out ∙ nodes-put_other v d new q q_d;
      },
    )
