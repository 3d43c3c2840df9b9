-- ===== src/Alloc/Realloc.antt =====
-- `allocatorRealloc` keeps the data of the block.
use umka_os.Base.{
  ℕ, zero, suc, ◌+◌, ◌-◌, ◌≤◌, ◌<◌, ◌≡◌, ◌≢◌, refl, sym, ◌∙◌, ◌⊎◌, inl, inr, ap, List, [], ◌∷◌,
  ◌++◌, arith, update, update_self, update_other, length, ok,
}
use umka_os.Alloc.{Heap, header, copy, realloc}
use umka_os.Alloc.Blocks.{Lacks, In, Chain-check, Chain-apart, IsHeap}
use umka_os.Alloc.Take.{Lacks-remove}
use umka_os.Alloc.Give.{HasRoom, Given, reused, fresh, In-append, alloc-Given, free-IsHeap}

copy_before :
    (n i new old : ℕ) (byte : ℕ → ℕ) (a : ℕ) → a < new + i → copy n i new old byte a ≡ byte a
unfolding copy
copy_before zero i new old byte a h = refl
copy_before (suc n) i new old byte a h =
    copy_before n (i + 1) new old (update byte (new + i) (byte (old + i))) a (omega arith)
    ∙ update_other byte (new + i) (byte (old + i)) a (λ e. omega arith)

-- Copying between ranges that do not overlap.
copy_lem :
    (n i new old : ℕ) (byte : ℕ → ℕ) (j : ℕ)
    → (new + (i + n) ≤ old) ⊎ (old + (i + n) ≤ new)
    → j < n
    → copy n i new old byte (new + (i + j)) ≡ byte (old + (i + j))
unfolding copy
copy_lem zero i new old byte j apart h = absurd (omega arith)
copy_lem (suc n) i new old byte zero apart h =
    let here : new + (i + 0) ≡ new + i = omega arith in
    let there : old + i ≡ old + (i + 0) = omega arith in
    rw here (
      copy_before n (i + 1) new old (update byte (new + i) (byte (old + i))) (new + i) (omega arith)
      ∙ update_self byte (new + i) (byte (old + i)))
    ∙ ap byte there
copy_lem (suc n) i new old byte (suc j) apart h =
    let shift : i + suc j ≡ i + 1 + j = omega arith in
    rw shift (
      copy_lem n (i + 1) new old (update byte (new + i) (byte (old + i))) j (omega arith)
        (omega arith)
      ∙ update_other byte (new + i) (byte (old + i)) (old + (i + 1 + j)) (λ e. omega arith))

-- After a block has been given out: the heap, with the new block and an older one in use.
record Both (start q n : ℕ) (g : Heap) : Type 0 where
  blocks : List ℕ
  frees : List ℕ
  heap : IsHeap g start blocks frees
  old_in : In q blocks
  new_in : In n blocks
  old_used : Lacks q frees
  new_used : Lacks n frees
  differ : n ≢ q

In-last : (x : ℕ) (xs : List ℕ) → In x (xs ++ x ∷ [])
In-last x [] = inl refl
In-last x (y ∷ xs) = inr (In-last x xs)

Given-Both :
    {h : Heap} {start : ℕ} {blocks frees : List ℕ} {size : ℕ} {g : Heap} {n : ℕ} (q : ℕ)
    → IsHeap h start blocks frees
    → In q blocks
    → Lacks q frees
    → Given h start blocks frees size g n
    → Both start q n g
Given-Both {blocks} {frees} {n} q v i lacks (reused before behind e small w used j) =
    let (ne, rest) = Lacks-remove q n before behind (rw e at lacks) in
    record {
      blocks = blocks;
      frees = before ++ behind;
      heap = w;
      old_in = i;
      new_in = j;
      old_used = rest;
      new_used = used;
      differ = ne;
    }
Given-Both {h} {start} {blocks} {frees} {n} q v i lacks (fresh small w used at) =
    let (_, _, hi) = Chain-check h.head start h.tail q blocks v.chain i in
    record {
      blocks = blocks ++ n ∷ [];
      frees = frees;
      heap = w;
      old_in = In-append q blocks (n ∷ []) i;
      new_in = In-last n blocks;
      old_used = lacks;
      new_used = used;
      differ = λ z. omega arith;
    }

apart-cases : (a b : ℕ) → a ≢ b → (a < b) ⊎ (b < a)
apart-cases a b h = omega arith

-- What `realloc` copies, since the two blocks do not overlap.
copied :
    {start q : ℕ} (g : Heap) (n count : ℕ) (b : Both start q n g)
    → q ≢ n
    → count ≡ (g.head q).size
    → count ≤ (g.head n).size
    → (j : ℕ) → j < count
    → copy count 0 (n + header) (q + header) g.byte (n + header + j) ≡ g.byte (q + header + j)
copied {start} {q} g n count b ne e fits j lt =
    let z : j ≡ 0 + j = omega arith in
    rw z (copy_lem count 0 (n + header) (q + header) g.byte j apart lt)
  where
    apart : (n + header + (0 + count) ≤ q + header) ⊎ (q + header + (0 + count) ≤ n + header)
    apart = elim (apart-cases q n ne) [
      | inl below ↦ inr (
          omega (
            arith,
            Chain-apart g.head start g.tail q n b.blocks b.heap.chain b.old_in b.new_in below,
          ))
      | inr above ↦ inl (
          omega (
            arith,
            Chain-apart g.head start g.tail n q b.blocks b.heap.chain b.new_in b.old_in above,
          ))
    ]

module _ {h : Heap} {start : ℕ} {blocks frees : List ℕ} (v : IsHeap h start blocks frees)
    (q size : ℕ) (i : In q blocks) (lacks : Lacks q frees) (grow : (h.head q).size < size)
    (room : HasRoom h size) where
  -- In a well-formed heap with room behind its last block, where a block that is not free has to
  -- grow, `allocatorRealloc` returns another block that is large enough and holds the old data at
  -- every offset, and frees the old block. The heap stays well-formed.
  pub realloc-keeps :
      (j : ℕ)
      → j < (h.head q).size
      → (g : Heap) × (n : ℕ) × (blocks' frees' : List ℕ) × (realloc
            (length frees)
            h
            (q + header)
            size
          ≡ ok (g, n + header))
        × IsHeap g start blocks' (q ∷ frees')
        × In n blocks'
        × Lacks n (q ∷ frees')
        × (size ≤ (g.head n).size)
        × (g.byte (n + header + j) ≡ h.byte (q + header + j))
  unfolding realloc
  realloc-keeps j lt =
      let (g₁, n, eq, given, large, (same_byte, same_size)) = alloc-Given v size room in
      let b = Given-Both q v i lacks given in
      let count = (g₁.head q).size in
      let same = same_size q i in
      let g₂ : Heap = record g₁ { byte = copy count 0 (n + header) (q + header) g₁.byte } in
      let w : IsHeap g₂ start b.blocks b.frees = record {
        start_pos = b.heap.start_pos;
        chain = b.heap.chain;
        free_list = b.heap.free_list;
        distinct = b.heap.distinct;
        members = b.heap.members;
      } in
      let (g, freed, heap, (byte_g, size_g)) = free-IsHeap w q b.old_in b.old_used in
      let back : q + header - header ≡ q = omega arith in
      (
        g,
        n,
        b.blocks,
        b.frees,
        rw back (ground arith),
        heap,
        b.new_in,
        ((λ e. b.differ (sym e)), b.new_used),
        omega (arith, size_g n b.new_in),
        ap (λ f. f (n + header + j)) byte_g
            ∙ copied g₁ n count b (λ e. b.differ (sym e)) refl (omega arith) j (omega arith)
            ∙ ap (λ f. f (q + header + j)) same_byte,
      )
