-- ===== src/Loader/Tests.antt =====
-- The loader on a small image.
use umka_os.Base.{
  ℕ, ◌≡◌, refl, false, List, [], ◌∷◌, ◌++◌, arith, Text, codes, ok, ◌>>=◌, ◌≢◌, ◌<◌, some, ◌+◌,
  slash, length, ap, get_or,
}
use umka_os.CString.{same}
use umka_os.Vfs.{Vfs, IsTree}
use umka_os.Vfs.Path.{cut, push, walk, get_path, max_sub}
use umka_os.Vfs.Tree.{blank}
use umka_os.Vfs.Tree.Init.{blank-IsTree}
use umka_os.Fmt.Printf.Tests.{wholes}
use umka_os.Loader.{temp_size}
use umka_os.Loader.Fuel.{load_all}
use umka_os.Loader.Ends.{Loads, load_all-Loads}
use umka_os.Loader.Image.{Entries, nothing, dir, file, encode_dir, install}
use umka_os.Loader.Refine.{IsName, CanPack, load-encode_dir}
use umka_os.Loader.Place.{IsEntry}
use umka_os.Loader.Found.{Distinct, Fits, Found}
use umka_os.Vfs.Change.{Extends}
use umka_os.Loader.Install.{load-Found}
use umka_os.Loader.Boot.{boot, boot-Found}
use umka_os.Stdio.Start.{Standard, HasStandard}
use umka_os.Vfs.Stream.{new_stream}

-- A file, and a directory with two files.
abbrev image : Entries
image =
    file (codes "m") (1 ∷ 2 ∷ [])
      (dir (codes "d") (file (codes "m") [] (file (codes "n") (3 ∷ []) nothing)) nothing)

-- What follows the image.
abbrev behind : List ℕ
behind = b'p' ∷ 7 ∷ []

-- The file has no bytes of its size, so the loader faults.
load_all-Loads_example :
    Loads wholes (b'f' ∷ behind) [] blank (load_all wholes (b'f' ∷ behind) [] blank)
load_all-Loads_example = load_all-Loads wholes (b'f' ∷ behind) [] blank

named : (c : ℕ) → c ≢ 0 → IsName (c ∷ [])
named c h = (h, tt)

image-CanPack : CanPack image
image-CanPack =
    let m = named b'm' (λ e. omega arith) in
    let n = named b'n' (λ e. omega arith) in
    let e = named b'd' (λ e. omega arith) in
    (m, omega arith, (e, (m, omega arith, (n, omega arith, tt)), tt))

load-encode_dir_example :
    load_all wholes (encode_dir image ++ behind) [] blank
    ≡ (install wholes image [] blank >>= λ w. load_all wholes behind [] w)
load-encode_dir_example = load-encode_dir wholes image behind [] blank image-CanPack

letters_differ : (b c : ℕ) → b ≢ c → ◌≢◌ {A = Text} (b ∷ []) (c ∷ [])
letters_differ b c h e = h (ap (λ l. get_or l 0 0) e)

image-Distinct : Distinct image
image-Distinct =
    let outer = letters_differ b'm' b'd' (λ e. omega arith) in
    let inner = letters_differ b'm' b'n' (λ e. omega arith) in
    ((outer, tt), (tt, ((inner, tt), (tt, tt)), tt))

-- A name of one letter.
letter-IsEntry :
    (path : Text) (c : ℕ)
    → 0 < c
    → c ≢ slash
    → c ≢ b'.'
    → length (cut path []) < max_sub
    → length path + 2 < temp_size
    → IsEntry path (c ∷ [])
unfolding same
letter-IsEntry path c nonzero no_slash no_dot level room = record {
  string = ((λ e. omega arith), tt);
  flat = (no_slash, tt);
  plain = record { not_up = ground arith; not_stay = ground arith; not_empty = refl };
  size = omega arith;
  level = level;
  room = omega arith;
}

image-Fits : Fits [] image
unfolding cut push
image-Fits =
    let m =
      letter-IsEntry [] b'm' (omega arith) (λ e. omega arith) (λ e. omega arith) (omega arith)
        (omega arith) in
    let e =
      letter-IsEntry [] b'd' (omega arith) (λ e. omega arith) (λ e. omega arith) (omega arith)
        (omega arith) in
    let m' =
      letter-IsEntry (codes "/d") b'm' (omega arith) (λ e. omega arith) (λ e. omega arith)
        (omega arith) (omega arith) in
    let n' =
      letter-IsEntry (codes "/d") b'n' (omega arith) (λ e. omega arith) (λ e. omega arith)
        (omega arith) (omega arith) in
    (m, omega arith, (e, (m', omega arith, (n', omega arith, tt)), tt))

load-Found_example :
    (w : Vfs) × (load_all wholes (encode_dir image) [] blank ≡ ok ([], w))
    × IsTree w
    × Extends blank w
    × Found image [] 1 w
load-Found_example =
    load-Found wholes image [] 1 blank-IsTree root_found (λ e. omega arith) image-Fits
      image-Distinct
  where
    root_found : get_path blank [] false ≡ ok 1
    root_found = unfold get_path cut push walk in refl

boot-Found_example :
    (s : Standard) × (boot wholes (encode_dir image) ≡ ok s)
    × IsTree s.files
    × HasStandard s.files
    × (s.stdin ≡ some (new_stream 2))
    × (s.stdout ≡ some (new_stream 3))
    × (s.stderr ≡ some (new_stream 4))
    × Found image [] s.files.root s.files
boot-Found_example = boot-Found wholes image image-Fits image-Distinct
