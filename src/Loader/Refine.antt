-- ===== src/Loader/Refine.antt =====
-- The loader against what an image stands for.
use umka_os.Base.{
  ℕ, ◌+◌, ◌*◌, ◌/◌, ◌%◌, ◌<◌, ◌≡◌, ◌≢◌, refl, ◌∙◌, ap, List, [], ◌∷◌, ◌++◌, append_assoc, arith,
  ==-false, le→leb, length, length-append, take, drop-append, Text, ok, ◌>>=◌, >>=-nest,
}
use umka_os.Vfs.{Vfs}
use umka_os.Vfs.Tree.{create}
use umka_os.Vfs.Stream.{word}
use umka_os.Fmt.Printf.Argument.{Doubles}
use umka_os.Loader.{take_name, take_size, take_bytes, put_file, join, load_file, enter_dir}
use umka_os.Loader.Fuel.{load_all, load-unrolled}
use umka_os.Loader.Image.{Entries, nothing, dir, file, size_bytes, encode_dir, install}

-- A name without a terminator inside.
abbrev pub IsName : Text → Type 0
IsName [] = Unit
IsName (c ∷ name) = (c ≢ 0) × IsName name

-- Entries that can be packed: with names that are C strings, and files whose sizes have 32 bits.
abbrev pub CanPack : Entries → Type 0
CanPack nothing = Unit
CanPack (dir name inner rest) = IsName name × CanPack inner × CanPack rest
CanPack (file name bytes rest) = IsName name × (length bytes < word) × CanPack rest

take_name-append : (name p : List ℕ) → IsName name → take_name (name ++ 0 ∷ p) ≡ ok (name, p)
unfolding take_name
take_name-append [] p h = refl
take_name-append (c ∷ name) p (ne, h) =
    rw (take_name, ==-false c 0 ne, take_name-append name p h) refl

take_size-size_bytes : (n : ℕ) (p : List ℕ) → n < word → take_size (size_bytes n ++ p) ≡ ok (n, p)
unfolding take_size size_bytes
take_size-size_bytes n p h =
    let whole : n % 256
          + 256 * (n / 256 % 256 + 256 * (n / 65536 % 256 + 256 * (n / 16777216 % 256)))
        ≡ n =
      omega arith in
    ap (λ m. ok (m, p)) whole

take-append : (xs ys : List ℕ) → take (length xs) (xs ++ ys) ≡ xs
take-append [] ys = refl
take-append (x ∷ xs) ys = ap (λ l. x ∷ l) (take-append xs ys)

take_bytes-append : (bytes p : List ℕ) → take_bytes (length bytes) (bytes ++ p) ≡ ok (bytes, p)
unfolding take_bytes
take_bytes-append bytes p =
    rw
      (
        le→leb (length bytes) (length (bytes ++ p)) (omega (arith, length-append bytes p)),
        take-append bytes p,
        drop-append bytes p,
      )
      refl

module _ {D : Type 0} (d : Doubles D) where
  load_file-encoded :
      (name bytes p : List ℕ) (path : Text) (v : Vfs)
      → IsName name
      → length bytes < word
      → load_file d (name ++ 0 ∷ (size_bytes (length bytes) ++ (bytes ++ p))) path v
        ≡ (join d path name >>= λ temp. put_file v temp bytes >>= λ w. ok (p, w))
  unfolding load_file
  load_file-encoded name bytes p path v h small =
      rw
        (
          take_name-append name (size_bytes (length bytes) ++ (bytes ++ p)) h,
          take_size-size_bytes (length bytes) (bytes ++ p) small,
          take_bytes-append bytes p,
        )
        refl

  enter_dir-encoded :
      (name p : List ℕ) (path : Text) (v : Vfs)
      → IsName name
      → enter_dir d (name ++ 0 ∷ p) path v
        ≡ (join d path name >>= λ temp. create v temp >>= λ (w, node). ok (p, temp, w))
  unfolding enter_dir
  enter_dir-encoded name p path v h = rw (take_name-append name p h) refl

  -- For the image that entries with C strings as names and sizes of 32 bits are packed into, in front
  -- of any bytes, the loader is the installation of the entries, followed by the loader on those
  -- bytes: the same directories and files, in the same order, with the same faults.
  pub load-encode_dir :
      (es : Entries) (p : List ℕ) (path : Text) (v : Vfs)
      → CanPack es
      → load_all d (encode_dir es ++ p) path v ≡ (install d es path v >>= λ w. load_all d p path w)
  unfolding encode_dir install
  load-encode_dir nothing p path v h = refl
  load-encode_dir (file name bytes rest) p path v (named, small, h) =
      let q = encode_dir rest ++ p in
      let split : (name ++ 0 ∷ (size_bytes (length bytes) ++ (bytes ++ encode_dir rest))) ++ p
          ≡ name ++ 0 ∷ (size_bytes (length bytes) ++ (bytes ++ q)) =
        rw (append_assoc name, append_assoc (size_bytes (length bytes)), append_assoc bytes) refl in
      ap (λ l. load_all d (b'f' ∷ l) path v) split
      ∙ load-unrolled d b'f' (name ++ 0 ∷ (size_bytes (length bytes) ++ (bytes ++ q))) path v
      ∙ rw (load_file-encoded name bytes q path v named small) (
          >>=-nest (join d path name) _ _ _ _ (λ temp.
            >>=-nest (put_file v temp bytes) _ _ _ _ (λ w. load-encode_dir rest p path w h)))
  load-encode_dir (dir name inner rest) p path v (named, h, g) =
      let q = encode_dir inner ++ b'p' ∷ (encode_dir rest ++ p) in
      let split : (name ++ 0 ∷ (encode_dir inner ++ b'p' ∷ encode_dir rest)) ++ p ≡ name ++ 0 ∷ q =
        rw (append_assoc name, append_assoc (encode_dir inner)) refl in
      ap (λ l. load_all d (b'd' ∷ l) path v) split
      ∙ load-unrolled d b'd' (name ++ 0 ∷ q) path v
      ∙ rw (enter_dir-encoded name q path v named) (
          >>=-nest (join d path name) _ _ _ _ (λ temp.
            >>=-nest (create v temp) _ _ _ _ (λ (w, node).
              rw (load-encode_dir inner (b'p' ∷ (encode_dir rest ++ p)) temp w h) (
                >>=-nest (install d inner temp w) _ _ _ _ (λ w'.
                  rw (load-unrolled d b'p' (encode_dir rest ++ p) temp w')
                    (load-encode_dir rest p path w' g))))))
