-- ===== src/CString/Tests.antt =====
-- `strncmp` at two short strings.
use umka_os.Base.{◌≡◌, codes, arith, []}
use umka_os.Base.Int.{pos, negsuc, ◌-ℤ◌}
use umka_os.CString.Compare.{char_value, strncmp, strncmp-differ}

-- The strings differ in their second character.
strncmp-differ_example :
    (strncmp 1 (codes "ab") (codes "ac") ≡ negsuc 0)
    × (strncmp 2 (codes "ab") (codes "ac") ≡ pos 0)
    × (strncmp 3 (codes "ab") (codes "ac") ≡ negsuc 0)
unfolding char_value ◌-ℤ◌
strncmp-differ_example = strncmp-differ (codes "a") b'b' b'c' [] [] 0 (λ e. omega arith)
