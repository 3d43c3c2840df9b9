-- ===== src/Loader/Place.antt =====
-- One entry of an image in a tree: what `vfsCreate` and the writing of a file make of it.
use umka_os.Base.{
  ℕ, suc, ◌+◌, ◌<◌, ◌≡◌, ◌≢◌, refl, sym, ◌∙◌, ap, true, false, List, [], ◌∷◌, ◌++◌, arith, subst,
  length, Text, slash, ok,
}
use umka_os.Vfs.{Ptr, null, Node, Vfs, put, IsTree}
use umka_os.Vfs.Change.{nodes-put_self, put-IsTree, put-Extends, Extends, Extends-trans, IsKept}
use umka_os.Vfs.Path.{cut, drop_last, walk, get_path, max_sub}
use umka_os.Vfs.Path.Stable.{get_path-stable}
use umka_os.Vfs.Path.Join.{IsFlat, cut-join, basename-join, drop_last-append, length-join}
use umka_os.Vfs.Tree.{filename_size, create}
use umka_os.Vfs.Tree.Create.{
  IsShort, IsPlain, IsPlain-ne-nil, get_path-walk, create-Created, Created-IsTree, Created-Extends,
  Created-ne_null, Created-get_path,
}
use umka_os.Vfs.Tree.Child.{IsChild, get_path-IsChild}
use umka_os.Vfs.Tree.Below.{Holds, put-Holds_other, Created-Holds, IsChild-Extends}
use umka_os.Vfs.Stream.{new_stream, word}
use umka_os.Vfs.Stream.Write.{grown, write-append}
use umka_os.Vfs.Stream.RoundTrip.{emptied, fopen-wb}
use umka_os.Loader.{temp_size, write_close, put_file}
use umka_os.Loader.Refine.{IsName}

-- A name in the directory `path` that fits the arrays of the file system and of the loader.
pub record IsEntry (path name : Text) : Type 0 where
  pub string : IsName name
  pub flat : IsFlat name
  pub plain : IsPlain name
  pub size : length name < filename_size
  pub level : length (cut path []) < max_sub
  pub room : length path + suc (length name) < temp_size

entry-IsShort : (path name : Text) → IsEntry path name → IsShort (path ++ slash ∷ name)
entry-IsShort path name e = record {
  components = omega (arith, length-join path name e.flat (IsPlain-ne-nil e.plain), e.level);
  name = rw (basename-join path name e.flat) e.size;
}

-- `w` has the child `name` of the directory `d` at `q`, and the files that `v` has apart from `q`.
pub record Placed (v : Vfs) (d : Ptr) (path name : Text) (w : Vfs) (q : Ptr) : Type 0 where
  pub tree : IsTree w
  pub extends : Extends v w
  pub led : get_path w (path ++ slash ∷ name) false ≡ ok q
  pub some_node : q ≢ null
  pub child : IsChild w d name q
  pub kept : (r : Ptr) (bytes : List ℕ) → r ≢ q → Holds v r bytes → Holds w r bytes
  pub dir_led : get_path w path false ≡ ok d

module _ {v : Vfs} (t : IsTree v) (path name : Text) (d : Ptr) (e : IsEntry path name)
    (led : get_path v path false ≡ ok d) (some_dir : d ≢ null) where
  abbrev temp : Text
  temp = path ++ slash ∷ name

  dir_of_entry : get_path v temp true ≡ ok d
  dir_of_entry =
      get_path-walk v temp true (entry-IsShort path name e).components
      ∙ ap (λ names. walk v v.root (drop_last names))
          (cut-join path name e.flat (IsPlain-ne-nil e.plain))
      ∙ ap (walk v v.root) (drop_last-append (cut path []) name)
      ∙ sym (get_path-walk v path false (omega (arith, e.level)))
      ∙ led

  pub create-Placed : (w : Vfs) × (q : Ptr) × (create v temp ≡ ok (w, q)) × Placed v d path name w q
  create-Placed =
      let short = entry-IsShort path name e in
      let (w, q, made, c) = create-Created t temp short in
      let ne = Created-ne_null t temp d dir_of_entry some_dir c in
      let tree = Created-IsTree t temp c in
      let x = Created-Extends t temp c in
      let plain = subst IsPlain (sym (basename-join path name e.flat)) e.plain in
      let led_w = Created-get_path t temp short plain c ne in
      let dir_w = get_path-stable t x path false d led some_dir in
      (
        w,
        q,
        made,
        record {
          tree = tree;
          extends = x;
          led = led_w;
          some_node = ne;
          child =
              get_path-IsChild tree path name d q (omega (arith, e.level)) short.components e.plain
                e.flat dir_w some_dir led_w ne;
          kept = λ r bytes h. Created-Holds t temp c r bytes;
          dir_led = dir_w;
        },
      )

  pub put_file-Placed :
      (bytes : List ℕ)
      → length bytes < word
      → (w : Vfs) × (q : Ptr) × (put_file v temp bytes ≡ ok w)
        × Holds w q bytes
        × Placed v d path name w q
  unfolding put_file write_close
  put_file-Placed bytes small =
      let (v', q, made, p) = create-Placed in
      let n = p.child.node in
      let holds = p.child.holds in
      let v₁ = put v' q (emptied n) in
      let w = put v₁ q (grown (emptied n) bytes) in
      let at_q = nodes-put_self v' q (emptied n) in
      let t₁ =
        put-IsTree v' q n (emptied n) holds refl p.tree (p.tree.child_link q n holds)
          (p.tree.sibling_link q n holds) in
      let t₂ =
        put-IsTree v₁ q (emptied n) (grown (emptied n) bytes) at_q refl t₁
          (t₁.child_link q (emptied n) at_q) (t₁.sibling_link q (emptied n) at_q) in
      let x₁ =
        put-Extends v' q n (emptied n) holds (same_links n (emptied n) refl refl refl refl) in
      let x₂ =
        put-Extends v₁ q (emptied n) (grown (emptied n) bytes) at_q
          (same_links (emptied n) (grown (emptied n) bytes) refl refl refl refl) in
      let x = Extends-trans x₁ x₂ in
      (
        w,
        q,
        rw
            (
              made,
              fopen-wb v' temp q n p.led p.some_node holds,
              write-append v₁ (new_stream q) (emptied n) at_q bytes refl (omega arith),
            )
            refl,
        (grown (emptied n) bytes, nodes-put_self v₁ q (grown (emptied n) bytes), refl),
        record {
          tree = t₂;
          extends = Extends-trans p.extends x;
          led = get_path-stable p.tree x temp false q p.led p.some_node;
          some_node = p.some_node;
          child = IsChild-Extends x p.child;
          kept = λ r content h held.
              put-Holds_other v₁ q (grown (emptied n) bytes) r content h
                (put-Holds_other v' q (emptied n) r content h (p.kept r content h held));
          dir_led = get_path-stable p.tree x path false d p.dir_led some_dir;
        },
      )
    where
      same_links :
          (n m : Node)
          → m.filename ≡ n.filename
          → m.parent ≡ n.parent
          → m.child ≡ n.child
          → m.sibling ≡ n.sibling
          → IsKept n m
      same_links n m f p c s = record { filename = f; parent = p; child = λ _. c; sibling = λ _. s }
