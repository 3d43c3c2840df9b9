-- ===== src/Gfx/Hash.antt =====
-- `fnv32buf` of src/sys/gfx.c.
use Prim.Native.Nat.{bit_xor}
use umka_os.Base.{ℕ, ◌+◌, ◌*◌, ◌%◌, ◌^◌, ◌≡◌, refl, ap, ◌∙◌, List, [], ◌∷◌, arith}

-- `uint32_t`
abbrev pub word : ℕ
word = 2 ^ 32

-- `FNV_32_INIT`
abbrev pub fnv_32_init : ℕ
fnv_32_init = 0x811C9DC5

-- The five shifts, each within 32 bits, and their sum.
unfoldable pub mix : ℕ → ℕ
mix hval =
    (hval
      + (hval * 2 % word
          + hval * 2 ^ 4 % word
          + hval * 2 ^ 7 % word
          + hval * 2 ^ 8 % word
          + hval * 2 ^ 24 % word))
    % word

unfoldable pub fnv32buf : List ℕ → ℕ → ℕ
fnv32buf [] hval = hval
fnv32buf (b ∷ buf) hval = fnv32buf buf (mix (bit_xor hval b % word))

-- The FNV-1a hash as it is published: multiply by the prime.
unfoldable pub fnv1a : List ℕ → ℕ → ℕ
fnv1a [] hval = hval
fnv1a (b ∷ buf) hval = fnv1a buf (bit_xor hval b % word * 16777619 % word)

mix-prime : (hval : ℕ) → mix hval ≡ hval * 16777619 % word
unfolding mix
mix-prime hval = omega arith

-- The shifts and sums of `fnv32buf` compute the FNV-1a hash, a product with the prime 16777619 for
-- each byte, modulo 2 ^ 32.
pub fnv32buf-fnv1a : (buf : List ℕ) (hval : ℕ) → fnv32buf buf hval ≡ fnv1a buf hval
unfolding fnv32buf fnv1a
fnv32buf-fnv1a [] hval = refl
fnv32buf-fnv1a (b ∷ buf) hval =
    ap (fnv32buf buf) (mix-prime (bit_xor hval b % word))
    ∙ fnv32buf-fnv1a buf (bit_xor hval b % word * 16777619 % word)
