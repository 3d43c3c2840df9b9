-- ===== src/Memory.antt =====
-- `memcmp`, `memcpy`, `memset`, `memmove` and `calloc` of src/mock_libc/mock_libc.c, on a memory of
-- bytes. An object does not go round the end of the address space.
pub mod Strings
pub mod Bounded
pub mod Moves
pub mod Zeroed
pub mod Tests
use umka_os.Base.{
  ℕ, zero, suc, ◌+◌, ◌-◌, ◌*◌, ◌%◌, true, false, ◌==◌, ltb, if◌then◌else◌, update, Res, ok, ◌>>=◌,
}
use umka_os.Base.Int.{ℤ, pos, sub_ℕ}
use umka_os.Alloc.{word, Heap, alloc}

abbrev pub Bytes : Type 0
Bytes = ℕ → ℕ

-- `memcmp`; the two bytes are subtracted as signed numbers.
unfoldable pub memcmp : Bytes → ℕ → ℕ → ℕ → ℤ
memcmp m p q zero = pos 0
memcmp m p q (suc n) = elim (m p == m q) [
  | true ↦ memcmp m (p + 1) (q + 1) n
  | false ↦ sub_ℕ (m p) (m q)
]

-- `while (n--) *d++ = *s++`
unfoldable pub copy_up : Bytes → ℕ → ℕ → ℕ → Bytes
copy_up m d s zero = m
copy_up m d s (suc n) = copy_up (update m d (m s)) (d + 1) (s + 1) n

-- `while (n--) *--d = *--s`
unfoldable pub copy_down : Bytes → ℕ → ℕ → ℕ → Bytes
copy_down m d s zero = m
copy_down m d s (suc n) = copy_down (update m (d - 1) (m (s - 1))) (d - 1) (s - 1) n

unfoldable pub memcpy : Bytes → ℕ → ℕ → ℕ → Bytes
memcpy m dest src n = copy_up m dest src n

unfoldable pub memmove : Bytes → ℕ → ℕ → ℕ → Bytes
memmove m dest src n =
    if ltb dest src then copy_up m dest src n else copy_down m (dest + n) (src + n) n

unfoldable pub memset : Bytes → ℕ → ℕ → ℕ → Bytes
memset m p c zero = m
memset m p c (suc n) = memset (update m p (c % 256)) (p + 1) c n

-- `calloc`; the loop over the bytes is that of `memset` with 0.
unfoldable pub calloc : ℕ → Heap → ℕ → ℕ → Res (Heap × ℕ)
calloc fuel h nmemb size = alloc fuel h (nmemb * size % word) >>= λ (g, p).
    ok (record g { byte = memset g.byte p 0 (nmemb * size % word) }, p)
