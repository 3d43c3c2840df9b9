-- ===== src/Alloc/Give.antt =====
-- `allocatorAlloc` and `allocatorFree` keep the heap, and what a block that is handed out is.
use umka_os.Base.{
  ℕ, suc, ◌+◌, ◌-◌, ◌%◌, ◌≤◌, ◌<◌, ◌≡◌, refl, ◌∙◌, inl, inr, ap, List, [], ◌∷◌, ◌++◌, arith, update,
  update_self, update_other, length, ok, ◌>>=◌, List-cases,
}
use umka_os.Alloc.{
  MemNode, Heads, Heap, word, header, magic, rounded, after_tail, set_next, unlink, check_magic,
  bump, alloc, free,
}
use umka_os.Alloc.Blocks.{
  Lacks, In, AllIn, Free, Chain, IsHeap, Lacks-set_next, Chain-set_next, Chain-update, Chain-append,
  Chain-check, size-set_next, check-set_next,
}
use umka_os.Alloc.Take.{
  AllSmall, last_or, search-FirstFit, Lacks-remove, Distinct-remove, AllIn-remove, Free-unlink,
  last_or-pos,
}

-- There is room behind the last block for one more of that size.
abbrev pub HasRoom : Heap → ℕ → Type 0
HasRoom h size = h.tail + (h.head h.tail).size + header + header + size + 16 < word

-- The data and the sizes of the blocks, which giving out another leaves alone.
abbrev pub SameBlocks : List ℕ → Heap → Heap → Type 0
SameBlocks blocks h g =
    (g.byte ≡ h.byte) × ((b : ℕ) → In b blocks → (g.head b).size ≡ (h.head b).size)

-- The block `q` given out: large enough, off the free list, and either the first free block that
-- is large enough or a new one behind all others.
pub data Given (h : Heap) (start : ℕ) (blocks frees : List ℕ) (size : ℕ) (g : Heap) (q : ℕ)
    : Type 0 where
  reused :
      (before behind : List ℕ)
      → frees ≡ before ++ q ∷ behind
      → AllSmall h.head size before
      → IsHeap g start blocks (before ++ behind)
      → Lacks q (before ++ behind)
      → In q blocks
      → Given h start blocks frees size g q
  fresh :
      AllSmall h.head size frees
      → IsHeap g start (blocks ++ q ∷ []) frees
      → Lacks q frees
      → h.tail + header + (h.head h.tail).size ≡ q
      → Given h start blocks frees size g q

size-le-rounded :
    (size : ℕ)
    → size + 16 < word
    → (size < rounded size) × (rounded size ≤ size + 16) × (rounded size % 16 ≡ 0)
unfolding rounded
size-le-rounded size h = omega arith

Free-update :
    (head : Heads) (n : ℕ) (m : MemNode) (p : ℕ) (xs : List ℕ)
    → Lacks n xs
    → Free head p xs
    → Free (update head n m) p xs
Free-update head n m p [] h e = e
Free-update head n m p (x ∷ xs) (ne, h) (e, pos, f) =
    (e, pos, rw (update_other head n m x ne) (Free-update head n m (head x).next xs h f))

pub In-append : (x : ℕ) (xs ys : List ℕ) → In x xs → In x (xs ++ ys)
In-append x [] ys i = elim i [ ]
In-append x (y ∷ xs) ys (inl e) = inl e
In-append x (y ∷ xs) ys (inr i) = inr (In-append x xs ys i)

AllIn-append : (xs ys zs : List ℕ) → AllIn xs ys → AllIn xs (ys ++ zs)
AllIn-append [] ys zs h = tt
AllIn-append (x ∷ xs) ys zs (i, h) = (In-append x ys zs i, AllIn-append xs ys zs h)

-- An address behind every block is in no list of blocks.
Lacks-of_above :
    (head : Heads) (start last n : ℕ) (blocks xs : List ℕ)
    → Chain head start blocks last
    → last < n
    → AllIn xs blocks
    → Lacks n xs
Lacks-of_above head start last n blocks [] c h i = tt
Lacks-of_above head start last n blocks (x ∷ xs) c h (i, is) =
    let (_, _, hi) = Chain-check head start last x blocks c i in
    ((λ e. omega arith), Lacks-of_above head start last n blocks xs c h is)

module _ {h : Heap} {start : ℕ} {blocks frees : List ℕ} (v : IsHeap h start blocks frees) (size : ℕ)
    (room : HasRoom h size) where
  open v use {start_pos, chain, free_list, distinct, members}

  bump-Given :
      AllSmall h.head size frees
      → (g : Heap) × (q : ℕ) × (bump h size ≡ (g, q + header))
        × Given h start blocks frees size g q
        × (size ≤ (g.head q).size)
        × SameBlocks blocks h g
  unfolding bump
  bump-Given small =
      let q = after_tail h in
      let m : MemNode = record { check = magic; next = 0; size = rounded size } in
      let g : Heap = record h { head = update h.head q m; tail = q } in
      let at : q ≡ h.tail + (h.head h.tail).size + header = omega arith in
      let above : h.tail < q = omega arith in
      let lacks = Lacks-of_above h.head start h.tail q blocks frees chain above members in
      let new = update_self h.head q m in
      let keeps = λ (b : ℕ) (i : In b blocks).
        let (_, _, hi) = Chain-check h.head start h.tail b blocks chain i in
        ap (λ (n : MemNode). n.size) (update_other h.head q m b (λ e. omega arith)) in
      let old_tail =
        ap (λ (n : MemNode). n.size) (update_other h.head q m h.tail (λ e. omega arith)) in
      (
        g,
        q,
        ap (λ k. (g, k)) (omega arith),
        fresh small
            (record {
              start_pos = start_pos;
              chain =
                  Chain-append g.head start h.tail blocks q
                    (Chain-update h.head q m start h.tail blocks above chain)
                    (omega (arith, old_tail)) (ap (λ (n : MemNode). n.check) new);
              free_list = Free-update h.head q m h.free frees lacks free_list;
              distinct = distinct;
              members = AllIn-append frees blocks (q ∷ []) members;
            })
            lacks (omega arith),
        rw new (let (lt, _, _) = size-le-rounded size (omega arith) in omega arith),
        (refl, keeps),
      )

  unlink-Given :
      (before behind : List ℕ) (n : ℕ)
      → frees ≡ before ++ n ∷ behind
      → AllSmall h.head size before
      → size ≤ (h.head n).size
      → (g : Heap) × ((unlink h (last_or 0 before) n >>= λ g. check_magic g n) ≡ ok (g, n + header))
        × Given h start blocks frees size g n
        × (size ≤ (g.head n).size)
        × SameBlocks blocks h g
  unfolding unlink check_magic
  unlink-Given [] behind n e small large =
      let (hd, pos, rest) = rw e at free_list in
      let (d, lacks) = Distinct-remove n [] behind (rw e at distinct) in
      let (i, is) = AllIn-remove n [] behind blocks (rw e at members) in
      let (m, _, _) = Chain-check h.head start h.tail n blocks chain i in
      let g : Heap = record h { free = (h.head n).next } in
      (
        g,
        ground arith,
        reused [] behind e tt
            (record {
              start_pos = start_pos;
              chain = chain;
              free_list = rest;
              distinct = d;
              members = is;
            })
            lacks i,
        large,
        (refl, λ b j. refl),
      )
  unlink-Given (x ∷ before) behind n e small large =
      let f = rw e at free_list in
      let dist = rw e at distinct in
      let (d, lacks) = Distinct-remove n (x ∷ before) behind dist in
      let (i, is) = AllIn-remove n (x ∷ before) behind blocks (rw e at members) in
      let (m, _, _) = Chain-check h.head start h.tail n blocks chain i in
      let (ne, _) = Lacks-remove x n before behind dist.0 in
      let p = last_or x before in
      let next = (h.head n).next in
      let pos = last_or-pos h.head h.free x before (n ∷ behind) f in
      let g : Heap = record h { head = set_next h.head p next } in
      let m' = check-set_next h.head p next n ∙ m in
      (
        g,
        ground (arith, f.0),
        reused (x ∷ before) behind e small
            (record {
              start_pos = start_pos;
              chain = Chain-set_next h.head p next start h.tail blocks chain;
              free_list = Free-unlink h.head h.free x n before behind f dist;
              distinct = d;
              members = is;
            })
            lacks i,
        rw (size-set_next h.head p next n) large,
        (refl, λ b j. size-set_next h.head p next b),
      )

  -- In a well-formed heap with room behind its last block for one more, `allocatorAlloc` gives out
  -- a block, with the length of the free list as the fuel of its search. The block is at least as
  -- large as asked for, not on the free list afterwards, and the first free block that fits, or a
  -- new one where none fits. The heap stays well-formed; no size of a block and no data byte
  -- changes.
  pub alloc-Given :
      (g : Heap) × (q : ℕ) × (alloc (length frees) h size ≡ ok (g, q + header))
      × Given h start blocks frees size g q
      × (size ≤ (g.head q).size)
      × SameBlocks blocks h g
  unfolding alloc
  alloc-Given = elim (List-cases frees) [
    | inl e ↦
        let (g, q, eq, given, large, same) = bump-Given (rw e tt) in
        let none_free : h.free ≡ 0 = rw e at free_list in (g, q, ground arith, given, large, same)
    | inr (x, xs, e) ↦
        let (hd, pos, onward) = rw e at free_list in
        let k : length frees ≡ suc (length xs) = ap (λ l. length l) e in
        elim (search-FirstFit (length frees) h.head size 0 x xs (refl, pos, onward) (omega arith)) [
          | inl (none_left, small) ↦
              let (g, q, eq, given, large, same) = bump-Given (rw e small) in
              (g, q, ground (arith, none_left), given, large, same)
          | inr r ↦
              let (g, eq, given, large, same) =
                unlink-Given r.before r.behind r.node (e ∙ r.split) r.small r.large in
              (g, r.node, ground (arith, r.result), given, large, same)
        ]
  ]

module _ {h : Heap} {start : ℕ} {blocks frees : List ℕ} (v : IsHeap h start blocks frees) where
  -- In a well-formed heap `allocatorFree` puts a block that is not free at the front of the free
  -- list. The heap stays well-formed; no size of a block and no data byte changes.
  pub free-IsHeap :
      (q : ℕ)
      → In q blocks
      → Lacks q frees
      → (g : Heap) × (free h (q + header) ≡ ok g)
        × IsHeap g start blocks (q ∷ frees)
        × SameBlocks blocks h g
  unfolding free
  free-IsHeap q i lacks =
      let (m, lo, hi) = Chain-check h.head start h.tail q blocks v.chain i in
      let g : Heap = record h { head = set_next h.head q h.free; free = q } in
      let back : q + header - header ≡ q = omega arith in
      let next = update_self h.head q (record (h.head q) { next = h.free }) in
      (
        g,
        rw back (ground arith),
        record {
          start_pos = v.start_pos;
          chain = Chain-set_next h.head q h.free start h.tail blocks v.chain;
          free_list = (
            refl,
            (λ z. omega arith),
            rw next (Lacks-set_next h.head q h.free h.free frees lacks v.free_list),
          );
          distinct = (lacks, v.distinct);
          members = (i, v.members);
        },
        (refl, λ b j. size-set_next h.head q h.free b),
      )
