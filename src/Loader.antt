-- ===== src/Loader.antt =====
-- `loadVfsImage` of src/sys/main.c: it unpacks the image of the file system that is linked into the
-- kernel. An image is the list of its bytes up to `_binary_bin_fs_bin_end`; a read past the end is
-- a fault, as is the `hlt` that follows `cli`.
pub mod Image
pub mod Join
pub mod Fuel
pub mod Ends
pub mod Refine
pub mod Place
pub mod Found
pub mod Install
pub mod Boot
pub mod Tests
use umka_os.Base.{
  ℕ, zero, suc, ◌+◌, ◌*◌, true, false, none, some, Option, List, [], ◌∷◌, ◌==◌, leb, ltb,
  if◌then◌else◌, length, take, drop, Text, codes, Res, ok, fault, ◌>>=◌,
}
use umka_os.Vfs.{Vfs}
use umka_os.Vfs.Tree.{create}
use umka_os.Vfs.Stream.{Stream, fopen, write}
use umka_os.Fmt.Printf.{string}
use umka_os.Fmt.Printf.Argument.{Doubles}
use umka_os.Stdio.Print.{sprintf}

-- The size of the array `temp`.
abbrev pub temp_size : ℕ
temp_size = 512

-- The string at `p`, up to its terminator, and `p + l + 1`.
unfoldable pub take_name : List ℕ → Res (Text × List ℕ)
take_name [] = fault
take_name (c ∷ p) = elim (c == 0) [
  | true ↦ ok ([], p)
  | false ↦ take_name p >>= λ (name, rest). ok (c ∷ name, rest)
]

-- `*(uint32_t *)p`, and `p + 4`.
unfoldable pub take_size : List ℕ → Res (ℕ × List ℕ)
take_size (a ∷ b ∷ c ∷ e ∷ p) = ok (a + 256 * (b + 256 * (c + 256 * e)), p)
take_size _ = fault

-- The bytes that `vfsWrite` copies, and `p + size`.
unfoldable pub take_bytes : ℕ → List ℕ → Res (List ℕ × List ℕ)
take_bytes size p = if leb size (length p) then ok (take size p, drop size p) else fault

-- `vfsWrite(s, p, size)` and `vfsClose(s)`, for the stream that `vfsOpen` has returned.
unfoldable pub write_close : Vfs → Option Stream → List ℕ → Res Vfs
write_close v none bytes = fault
write_close v (some s) bytes = write v s bytes >>= λ (w, s', events). ok w

-- A file as the loader makes it: `vfsCreate`, `vfsOpen`, `vfsWrite`, `vfsClose`.
unfoldable pub put_file : Vfs → Text → List ℕ → Res Vfs
put_file v temp bytes =
    create v temp >>= λ (v', p). fopen v' temp (codes "wb") >>= λ (w, s). write_close w s bytes

module _ {D : Type 0} (d : Doubles D) where
  -- `sprintf(temp, "%s/%s", path, p)`
  unfoldable pub join : Text → Text → Res Text
  join path name = sprintf d (codes "%s/%s") (string path ∷ string name ∷ []) >>= λ (temp, stores).
      if ltb (length temp) temp_size then ok temp else fault

  -- The case `'f'`: what is left of the image, and the file system.
  unfoldable pub load_file : List ℕ → Text → Vfs → Res (List ℕ × Vfs)
  load_file p path v = take_name p >>= λ (name, p'). join path name >>= λ temp.
      take_size p' >>= λ (size, p'').
      take_bytes size p'' >>= λ (bytes, rest). put_file v temp bytes >>= λ w. ok (rest, w)

  -- The case `'d'` up to the call of the loader: what is left of the image, the path of the
  -- directory, and the file system.
  unfoldable pub enter_dir : List ℕ → Text → Vfs → Res (List ℕ × Text × Vfs)
  enter_dir p path v = take_name p >>= λ (name, rest).
      join path name >>= λ temp. create v temp >>= λ (w, node). ok (rest, temp, w)

  -- `loadVfsImage`, with a bound on its rounds.
  unfoldable pub load : ℕ → List ℕ → Text → Vfs → Res (List ℕ × Vfs)
  load n [] path v = ok ([], v)
  load zero (c ∷ p) path v = fault
  load (suc n) (c ∷ p) path v = elim (c == b'p') [
    | true ↦ ok (p, v)
    | false ↦ elim (c == b'd') [
      | true ↦ enter_dir p path v >>= λ (rest, temp, w).
          load n rest temp w >>= λ (rest', w'). load n rest' path w'
      | false ↦ elim (c == b'f') [
        | true ↦ load_file p path v >>= λ (rest, w). load n rest path w
        | false ↦ fault
      ]
    ]
  ]
