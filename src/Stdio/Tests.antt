-- ===== src/Stdio/Tests.antt =====
-- Characters of a file of three bytes.
use umka_os.Base.{◌*◌, refl, ◌≡◌, ok, [], ◌∷◌, arith}
use umka_os.Vfs.Tests.{file, one_file, one_file-file, stream}
use umka_os.Stdio.{fread}
use umka_os.Stdio.Files.{fwrite, rewind, ftell, fread-fwrite}
use umka_os.Vfs.{Vfs}
use umka_os.Vfs.Stream.{Stream}

-- Two elements of three bytes.
fread-fwrite_example :
    (w : Vfs) × (s' r r' : Stream) × (fwrite one_file stream 3 2 (1 ∷ 2 ∷ 3 ∷ 4 ∷ 5 ∷ 6 ∷ [])
      ≡ ok (2, w, s', []))
    × (rewind w s' ≡ ok r)
    × (fread w r 3 2 ≡ ok (2, 1 ∷ 2 ∷ 3 ∷ 4 ∷ 5 ∷ 6 ∷ [], r'))
    × (ftell r' ≡ 3 * 2)
fread-fwrite_example =
    fread-fwrite one_file stream file 3 2 (1 ∷ 2 ∷ 3 ∷ 4 ∷ 5 ∷ 6 ∷ []) one_file-file refl refl refl
      (λ e. omega arith) refl (omega arith)
