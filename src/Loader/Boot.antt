-- ===== src/Loader/Boot.antt =====
-- The start of `kmain` of src/sys/main.c: `rtlInit`, then the loader with the empty path.
use umka_os.Base.{ℕ, ◌≡◌, refl, sym, false, some, List, [], subst, Res, ok, ◌>>=◌}
use umka_os.Vfs.{Vfs, IsTree}
use umka_os.Vfs.Path.{cut, push, walk, get_path}
use umka_os.Vfs.Tree.Create.{ne_null_of_Live}
use umka_os.Vfs.Stream.{new_stream}
use umka_os.Stdio.Start.{Standard, rtl_init, HasStandard, HasStandard-Extends, rtl_init-HasStandard}
use umka_os.Fmt.Printf.Argument.{Doubles}
use umka_os.Loader.Fuel.{load_all}
use umka_os.Loader.Image.{Entries, encode_dir}
use umka_os.Loader.Found.{Distinct, Fits, Found}
use umka_os.Loader.Install.{load-Found}

-- `rtlInit(…); loadVfsImage(_binary_bin_fs_bin_start, "");`
unfoldable pub boot : {D : Type 0} → Doubles D → List ℕ → Res Standard
boot d image =
    rtl_init >>= λ s. load_all d image [] s.files >>= λ (rest, w). ok (record s { files = w })

root_led : (v : Vfs) → get_path v [] false ≡ ok v.root
unfolding get_path cut push walk
root_led v = refl

-- At start-up, for the image of entries whose names are different in every directory and fit the
-- arrays below the root: nothing faults, the files make a tree, the three standard streams are open
-- on three nodes that their paths lead to, and every directory of the image and every file with exactly
-- its bytes is found at its path below the root.
pub boot-Found :
    {D : Type 0} (d : Doubles D) (es : Entries)
    → Fits [] es
    → Distinct es
    → (s : Standard) × (boot d (encode_dir es) ≡ ok s)
      × IsTree s.files
      × HasStandard s.files
      × (s.stdin ≡ some (new_stream 2))
      × (s.stdout ≡ some (new_stream 3))
      × (s.stderr ≡ some (new_stream 4))
      × Found es [] s.files.root s.files
unfolding boot
boot-Found d es fits distinct =
    let (s, started, in_, out, err, t, std) = rtl_init-HasStandard in
    let (w, loaded, t', x, found) =
      load-Found d es {v = s.files} [] s.files.root t (root_led s.files)
        (ne_null_of_Live t s.files.root t.root_live) fits distinct in
    (
      record s { files = w },
      rw (started, loaded) refl,
      t',
      HasStandard-Extends t x std,
      in_,
      out,
      err,
      subst (λ root. Found es [] root w) (sym x.same_root) found,
    )
