-- ===== src/Loader/Image.antt =====
-- What an image of src/mkfs.py stands for: directories and files with their names, and what the
-- loader is to do with them.
use umka_os.Base.{ℕ, ◌/◌, ◌%◌, List, [], ◌∷◌, ◌++◌, length, Text, Res, ok, ◌>>=◌}
use umka_os.Vfs.{Vfs}
use umka_os.Vfs.Tree.{create}
use umka_os.Fmt.Printf.Argument.{Doubles}
use umka_os.Loader.{join, put_file}

-- The entries of a directory, in the order in which they are packed.
pub data Entries : Type 0 where
  nothing : Entries
  dir : Text → Entries → Entries → Entries
  file : Text → List ℕ → Entries → Entries

-- `bytes(ctypes.c_int32(size))`: four bytes, the lowest first.
unfoldable pub size_bytes : ℕ → List ℕ
size_bytes n = n % 256 ∷ n / 256 % 256 ∷ n / 65536 % 256 ∷ n / 16777216 % 256 ∷ []

-- `encodeDir`
unfoldable pub encode_dir : Entries → List ℕ
encode_dir nothing = []
encode_dir (dir name inner rest) = b'd' ∷ (name ++ 0 ∷ (encode_dir inner ++ b'p' ∷ encode_dir rest))
encode_dir (file name bytes rest) =
    b'f' ∷ (name ++ 0 ∷ (size_bytes (length bytes) ++ (bytes ++ encode_dir rest)))

-- The directories and files are made one after the other.
unfoldable pub install : {D : Type 0} → Doubles D → Entries → Text → Vfs → Res Vfs
install d nothing path v = ok v
install d (dir name inner rest) path v = join d path name >>= λ temp.
    create v temp >>= λ (w, node). install d inner temp w >>= λ w'. install d rest path w'
install d (file name bytes rest) path v =
    join d path name >>= λ temp. put_file v temp bytes >>= λ w. install d rest path w
