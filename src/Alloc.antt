-- ===== src/Alloc.antt =====
-- The free-list allocator of src/mock_libc/alloc.c, on a memory of block headers and data bytes.
pub mod Blocks
pub mod Take
pub mod Give
pub mod Realloc
pub mod Tests
use umka_os.Base.{
  ℕ, zero, suc, ◌+◌, ◌-◌, ◌*◌, ◌%◌, ◌^◌, true, false, ◌==◌, ltb, leb, if◌then◌else◌, Res, ok, fault,
  ◌>>=◌, update,
}

-- `size_t` and pointers have 32 bits.
abbrev pub word : ℕ
word = 2 ^ 32

-- `sizeof(MemNode)`
abbrev pub header : ℕ
header = 16

abbrev pub magic : ℕ
magic = 0x11FACADE

pub record MemNode : Type 0 where
  pub check : ℕ
  pub next : ℕ
  pub size : ℕ

abbrev pub Heads : Type 0
Heads = ℕ → MemNode

-- The headers by their address, the data bytes, and the two pointers of `Allocator`.
pub record Heap : Type 0 where
  pub head : Heads
  pub byte : ℕ → ℕ
  pub tail : ℕ
  pub free : ℕ

-- `allocatorInit`
unfoldable pub init : Heap → ℕ → Heap
init h start = record h {
  head = update h.head start (record { check = 0; next = 0; size = 0 });
  tail = start;
  free = 0;
}

pub data Search : Type 0 where
  fit : (prev node : ℕ) → Search
  none_fits : Search
  out_of_fuel : Search

-- `while (node->size < size)`
unfoldable pub search : ℕ → Heads → ℕ → ℕ → ℕ → Search
search zero head size prev node = out_of_fuel
search (suc k) head size prev node = elim (ltb (head node).size size) [
  | false ↦ fit prev node
  | true ↦ elim ((head node).next == 0) [
    | true ↦ none_fits
    | false ↦ search k head size node (head node).next
  ]
]

abbrev pub set_next : Heads → ℕ → ℕ → Heads
set_next head p q = update head p (record (head p) { next = q })

-- Takes `node` off the free list; no `prev` is a failed `assert`.
unfoldable pub unlink : Heap → ℕ → ℕ → Res Heap
unlink h prev node =
    if node == h.free
    then ok (record h { free = (h.head node).next })
    else if prev == 0
    then fault
    else ok (record h { head = set_next h.head prev (h.head node).next })

unfoldable pub check_magic : Heap → ℕ → Res (Heap × ℕ)
check_magic h node = if (h.head node).check == magic then ok (h, node + header) else fault

-- `size + (16 - (size % 16))`
unfoldable pub rounded : ℕ → ℕ
rounded size = (size + (16 - size % 16)) % word

abbrev pub after_tail : Heap → ℕ
after_tail h = (h.tail + (h.head h.tail).size + header) % word

-- The code behind the label `normal`.
unfoldable pub bump : Heap → ℕ → Heap × ℕ
unfolding rounded
bump h size = (
  record h {
    head = update h.head (after_tail h) (record { check = magic; next = 0; size = rounded size });
    tail = after_tail h;
  },
  (after_tail h + header) % word,
)

-- `allocatorAlloc`
unfoldable pub alloc : ℕ → Heap → ℕ → Res (Heap × ℕ)
alloc fuel h size =
    if h.free == 0 then ok (bump h size) else elim (search fuel h.head size 0 h.free) [
      | fit prev node ↦ unlink h prev node >>= λ g. check_magic g node
      | none_fits ↦ ok (bump h size)
      | out_of_fuel ↦ fault
    ]

-- `allocatorFree`
unfoldable pub free : Heap → ℕ → Res Heap
free h ptr =
    if ptr == 0
    then ok h
    else if (h.head (ptr - header)).check == magic
    then ok (record h { head = set_next h.head (ptr - header) h.free; free = ptr - header })
    else fault

-- `for (size_t i = 0; i < node->size; i++) new[i] = node->data[i]`; `n` rounds are left.
unfoldable pub copy : ℕ → ℕ → ℕ → ℕ → (ℕ → ℕ) → ℕ → ℕ
copy zero i new old byte = byte
copy (suc n) i new old byte = copy n (i + 1) new old (update byte (new + i) (byte (old + i)))

-- `allocatorRealloc`
unfoldable pub realloc : ℕ → Heap → ℕ → ℕ → Res (Heap × ℕ)
realloc fuel h ptr size =
    if ptr == 0
    then alloc fuel h size
    else if leb size (h.head (ptr - header)).size
    then ok (h, ptr)
    else (alloc fuel h size >>= λ (g, new).
        free (record g { byte = copy (g.head (ptr - header)).size 0 new ptr g.byte }) ptr >>= λ g'.
        ok (g', new))
