-- ===== src/Loader/Install.antt =====
-- What the loader makes of an image in a tree: every directory and every file, with its bytes.
use umka_os.Base.{
  ℕ, ◌≡◌, ◌≢◌, refl, sym, ◌∙◌, ap, false, List, [], ◌∷◌, ◌++◌, subst, append-nil, Text, slash, ok,
}
use umka_os.Vfs.{Ptr, null, Vfs, Live, IsTree}
use umka_os.Vfs.Change.{Extends, Extends-refl, Extends-trans}
use umka_os.Vfs.Path.{get_path}
use umka_os.Vfs.Path.Stable.{get_path-stable}
use umka_os.Vfs.Tree.Child.{IsChild}
use umka_os.Vfs.Tree.Below.{Below, here, Below-trans, IsChild-Below, Holds, IsChild-Extends}
use umka_os.Fmt.Printf.Argument.{Doubles}
use umka_os.Loader.{load}
use umka_os.Loader.Fuel.{load_all}
use umka_os.Loader.Image.{Entries, nothing, dir, file, encode_dir, install}
use umka_os.Loader.Join.{join-ok}
use umka_os.Loader.Refine.{load-encode_dir}
use umka_os.Loader.Found.{
  Misses, Distinct, Fits, Found, Fits-CanPack, Apart, Misses-tail, Apart-Extends, Apart-other,
  Apart-not-Below, Found-stable,
}
use umka_os.Loader.Place.{Placed, create-Placed, put_file-Placed}

record Installed {D : Type 0} (doubles : Doubles D) (es : Entries) (path : Text) (d : Ptr) (v : Vfs)
    : Type 0 where
  after : Vfs
  runs : install doubles es path v ≡ ok after
  tree : IsTree after
  extends : Extends v after
  found : Found es path d after
  kept : (r : Ptr) (bytes : List ℕ) → Apart v d es r → Holds v r bytes → Holds after r bytes

Holds-Live : (v : Vfs) (r : Ptr) (bytes : List ℕ) → Holds v r bytes → Live v r
Holds-Live v r bytes (n, e, c) = (n, e)

-- A file apart from the entries keeps its bytes when the first of them is placed.
Placed-kept :
    {v w : Vfs} (es : Entries) {path name : Text} {d q r : Ptr}
    → IsTree v
    → Placed v d path name w q
    → (Misses es name → name ≢ name)
    → (bytes : List ℕ) → Apart v d es r
    → Holds v r bytes
    → Holds w r bytes × Apart w d es r
Placed-kept {v = v} {w = w} es {q = q} {r = r} t p named bytes apart held =
    let apart' = Apart-Extends es t p.tree p.extends (Holds-Live v r bytes held) apart in
    let differs = λ (e : r ≡ q).
      named (Apart-not-Below es p.child apart' (subst (λ y. Below w y r) e here)) refl in
    (p.kept r bytes differs held, apart')

module _ {D : Type 0} (doubles : Doubles D) where
  install-Installed :
      (es : Entries) {v : Vfs} (path : Text) (d : Ptr)
      → IsTree v
      → get_path v path false ≡ ok d
      → d ≢ null
      → Fits path es
      → Distinct es
      → Installed doubles es path d v
  unfolding install
  install-Installed nothing {v = v} path d t led some_dir fits distinct = record {
    after = v;
    runs = refl;
    tree = t;
    extends = Extends-refl v;
    found = tt;
    kept = λ r bytes apart h. h;
  }
  install-Installed (file name bytes rest) {v = v} path d t led some_dir (e, small, fits)
        (misses, distinct) =
      let es = file name bytes rest in
      let (w, q, made, held, p) = put_file-Placed t path name d e led some_dir bytes small in
      let next = install-Installed rest {v = w} path d p.tree p.dir_led some_dir fits distinct in
      record {
        after = next.after;
        runs = rw (join-ok doubles path name e.room, made) next.runs;
        tree = next.tree;
        extends = Extends-trans p.extends next.extends;
        found = (
          (
            q,
            get_path-stable p.tree next.extends (path ++ slash ∷ name) false q p.led p.some_node,
            IsChild-Extends next.extends p.child,
            next.kept q bytes (Apart-other rest p.child here misses) held,
          ),
          next.found,
        );
        kept = λ r content apart h.
            let (h', apart') = Placed-kept es t p (λ m. m.0) content apart h in
            next.kept r content (Misses-tail es rest (λ x m. m.1) apart') h';
      }
  install-Installed (dir name inner rest) {v = v} path d t led some_dir (e, fits, fits')
        (misses, distinct, distinct') =
      let es = dir name inner rest in
      let temp = path ++ slash ∷ name in
      let (w, q, made, p) = create-Placed t path name d e led some_dir in
      let below = install-Installed inner {v = w} temp q p.tree p.led p.some_node fits distinct in
      let dir_led = get_path-stable p.tree below.extends path false d p.dir_led some_dir in
      let next =
        install-Installed rest {v = below.after} path d below.tree dir_led some_dir fits'
          distinct' in
      let x = Extends-trans below.extends next.extends in
      record {
        after = next.after;
        runs = rw (join-ok doubles path name e.room, made, below.runs) next.runs;
        tree = next.tree;
        extends = Extends-trans p.extends x;
        found = (
          (
            q,
            get_path-stable p.tree x temp false q p.led p.some_node,
            IsChild-Extends x p.child,
            Found-stable inner temp q below.tree next.extends
                (λ r bytes b.
                  next.kept r bytes
                    (Apart-other rest (IsChild-Extends below.extends p.child) b misses))
                below.found,
          ),
          next.found,
        );
        kept = λ r content apart h.
            let (h₁, apart₁) = Placed-kept es t p (λ m. m.0) content apart h in
            let outside : Apart w q inner r = λ c k holds parent later b.
              let y : IsChild w q k.filename c = record {
                node = k;
                holds = holds;
                later = later;
                parent = parent;
                filename = refl;
              } in
              absurd
                ((Apart-not-Below es p.child apart₁ (Below-trans (IsChild-Below y) b)).0 refl) in
            let h₂ = below.kept r content outside h₁ in
            let apart₂ =
              Apart-Extends es p.tree below.tree below.extends (Holds-Live w r content h₁) apart₁ in
            next.kept r content (Misses-tail es rest (λ x m. m.1) apart₂) h₂;
      }

  -- In a tree, for the image of entries whose names are different in every directory and fit the
  -- arrays, loaded into an existing directory, the loader ends at the end of the image with no fault,
  -- keeps the tree, extends the one before, and leaves every directory of the image and every file with exactly its bytes
  -- to be found at its path.
  pub load-Found :
      (es : Entries) {v : Vfs} (path : Text) (d : Ptr)
      → IsTree v
      → get_path v path false ≡ ok d
      → d ≢ null
      → Fits path es
      → Distinct es
      → (w : Vfs) × (load_all doubles (encode_dir es) path v ≡ ok ([], w))
        × IsTree w
        × Extends v w
        × Found es path d w
  unfolding load
  load-Found es {v = v} path d t led some_dir fits distinct =
      let i = install-Installed es {v = v} path d t led some_dir fits distinct in
      let whole = load-encode_dir doubles es [] path v (Fits-CanPack es path fits) in
      (
        i.after,
        ap (λ l. load_all doubles l path v) (sym (append-nil (encode_dir es)))
            ∙ whole
            ∙ rw i.runs refl,
        i.tree,
        i.extends,
        i.found,
      )
