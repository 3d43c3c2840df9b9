-- ===== src/Stdio/Start.antt =====
-- `rtlInit` of src/mock_libc/mock_libc.c, behind `allocatorInit`: the file system and the standard
-- streams.
use umka_os.Base.{
  ◌≡◌, ◌≢◌, refl, sym, ◌∙◌, false, Option, some, [], arith, Text, codes, Res, ok, ◌>>=◌, ok_inj,
  length, subst, ◌≤◌,
}
use umka_os.Vfs.{Ptr, null, Vfs, Live, IsTree}
use umka_os.Vfs.Change.{put-IsTree, put-Extends, Extends}
use umka_os.Vfs.{put}
use umka_os.Vfs.Path.{get_path, cut, push, max_sub}
use umka_os.Vfs.Path.Total.{get_path-Arrives}
use umka_os.Vfs.Path.Stable.{get_path-stable}
use umka_os.Vfs.Tree.{init}
use umka_os.Vfs.Tree.Init.{init-IsTree}
use umka_os.Vfs.Stream.{Stream, new_stream, fopen}
use umka_os.Vfs.Stream.RoundTrip.{emptied, fopen-wb, fopen-rb}

-- The file system with the three streams.
pub record Standard : Type 0 where
  pub files : Vfs
  pub stdin : Option Stream
  pub stdout : Option Stream
  pub stderr : Option Stream

-- `rtlInit`
unfoldable pub rtl_init : Res Standard
rtl_init = init >>= λ v. fopen v (codes "$stdin") (codes "rb") >>= λ (v1, stdin).
    fopen v1 (codes "$stdout") (codes "wb") >>= λ (v2, stdout).
    fopen v2 (codes "$stderr") (codes "wb") >>= λ (v3, stderr).
    ok (record { files = v3; stdin = stdin; stdout = stdout; stderr = stderr })

-- A file that is opened for writing is empty, and the tree and the paths are as before.
fopen-emptied :
    {v : Vfs} (t : IsTree v) (path : Text) (p : Ptr)
    → Live v p
    → get_path v path false ≡ ok p
    → p ≢ null
    → (w : Vfs) × (fopen v path (codes "wb") ≡ ok (w, some (new_stream p))) × IsTree w × Extends v w
fopen-emptied {v} t path p (n, holds) led some_node = (
  put v p (emptied n),
  fopen-wb v path p n led some_node holds,
  put-IsTree v p n (emptied n) holds refl t (t.child_link p n holds) (t.sibling_link p n holds),
  put-Extends v p n (emptied n) holds
      (record { filename = refl; parent = refl; child = λ _. refl; sibling = λ _. refl }),
)

live :
    {v : Vfs} (t : IsTree v) (path : Text) (p : Ptr)
    → get_path v path false ≡ ok p
    → p ≢ null
    → length (cut path []) ≤ max_sub
    → Live v p
live {v} t path p led some_node short =
    let (q, e, at_q) = get_path-Arrives t path false short in
    let one : q ≡ p = ok_inj q p (sym e ∙ led) in
    subst (Live v) one (at_q (λ z. some_node (sym one ∙ z)))

-- The paths of the three streams lead to the nodes 2, 3 and 4.
pub record HasStandard (v : Vfs) : Type 0 where
  pub stdin : get_path v (codes "$stdin") false ≡ ok 2
  pub stdout : get_path v (codes "$stdout") false ≡ ok 3
  pub stderr : get_path v (codes "$stderr") false ≡ ok 4

pub HasStandard-Extends : {v w : Vfs} → IsTree v → Extends v w → HasStandard v → HasStandard w
HasStandard-Extends t x s = record {
  stdin = get_path-stable t x (codes "$stdin") false 2 s.stdin (λ e. omega arith);
  stdout = get_path-stable t x (codes "$stdout") false 3 s.stdout (λ e. omega arith);
  stderr = get_path-stable t x (codes "$stderr") false 4 s.stderr (λ e. omega arith);
}

-- `rtlInit` does not fault, and leaves a tree, and three streams on three nodes of it.
pub rtl_init-HasStandard :
    (s : Standard) × (rtl_init ≡ ok s)
    × (s.stdin ≡ some (new_stream 2))
    × (s.stdout ≡ some (new_stream 3))
    × (s.stderr ≡ some (new_stream 4))
    × IsTree s.files
    × HasStandard s.files
unfolding rtl_init cut push
rtl_init-HasStandard =
    let (v, made, t, in_, out, err) = init-IsTree in
    let std : HasStandard v = record { stdin = in_; stdout = out; stderr = err } in
    let live_out = live t (codes "$stdout") 3 out (λ e. omega arith) (omega arith) in
    let (v2, opened, t2, x) = fopen-emptied t (codes "$stdout") 3 live_out out (λ e. omega arith) in
    let std2 = HasStandard-Extends t x std in
    let live_err = live t2 (codes "$stderr") 4 std2.stderr (λ e. omega arith) (omega arith) in
    let (v3, opened', t3, x') =
      fopen-emptied t2 (codes "$stderr") 4 live_err std2.stderr (λ e. omega arith) in
    (
      record {
        files = v3;
        stdin = some (new_stream 2);
        stdout = some (new_stream 3);
        stderr = some (new_stream 4);
      },
      rw (made, fopen-rb v (codes "$stdin") 2 in_ (λ e. omega arith), opened, opened') refl,
      refl,
      refl,
      refl,
      t3,
      HasStandard-Extends t2 x' std2,
    )
