-- ===== src/Alloc/Tests.antt =====
-- The allocator on a heap of two blocks, the second of them free.
use umka_os.Base.{ℕ, ◌+◌, ◌≤◌, ◌≡◌, refl, inl, inr, List, [], ◌∷◌, arith, update, ok}
use umka_os.Alloc.{MemNode, Heap, header, magic, alloc, free, realloc}
use umka_os.Alloc.Blocks.{In, Lacks, IsHeap}
use umka_os.Alloc.Give.{SameBlocks, Given, alloc-Given, free-IsHeap}
use umka_os.Alloc.Realloc.{realloc-keeps}

abbrev bare : ℕ → MemNode
bare p = record { check = 0; next = 0; size = 0 }

abbrev block : ℕ → ℕ → MemNode
block next size = record { check = magic; next = next; size = size }

-- The heap starts at 64; its blocks are at 80 and, behind 32 bytes of data, at 128.
abbrev heads : ℕ → MemNode
heads = update (update bare 80 (block 0 32)) 128 (block 0 16)

abbrev pub heap : Heap
heap = record { head = heads; byte = λ p. p; tail = 128; free = 128 }

pub heap-IsHeap : IsHeap heap 64 (80 ∷ 128 ∷ []) (128 ∷ [])
unfolding update
heap-IsHeap = record {
  start_pos = omega arith;
  chain = (refl, refl, (refl, refl, refl));
  free_list = (refl, (λ e. omega arith), refl);
  distinct = (tt, tt);
  members = (inr (inl refl), tt);
}

alloc-Given_example :
    (g : Heap) × (q : ℕ) × (alloc 1 heap 8 ≡ ok (g, q + header))
    × Given heap 64 (80 ∷ 128 ∷ []) (128 ∷ []) 8 g q
    × (8 ≤ (g.head q).size)
    × SameBlocks (80 ∷ 128 ∷ []) heap g
unfolding update
alloc-Given_example = alloc-Given heap-IsHeap 8 (omega arith)

free-IsHeap_example :
    (g : Heap) × (free heap 96 ≡ ok g)
    × IsHeap g 64 (80 ∷ 128 ∷ []) (80 ∷ 128 ∷ [])
    × SameBlocks (80 ∷ 128 ∷ []) heap g
free-IsHeap_example = free-IsHeap heap-IsHeap 80 (inl refl) ((λ e. omega arith), tt)

realloc-keeps_example :
    (g : Heap) × (n : ℕ) × (blocks' frees' : List ℕ) × (realloc 1 heap 96 40 ≡ ok (g, n + header))
    × IsHeap g 64 blocks' (80 ∷ frees')
    × In n blocks'
    × Lacks n (80 ∷ frees')
    × (40 ≤ (g.head n).size)
    × (g.byte (n + header + 5) ≡ 101)
unfolding update
realloc-keeps_example =
    realloc-keeps heap-IsHeap 80 40 (inl refl) ((λ e. omega arith), tt) (omega arith) (omega arith)
      5 (omega arith)
