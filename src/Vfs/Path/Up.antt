-- ===== src/Vfs/Path/Up.antt =====
-- `..` undoes a step down.
use umka_os.Base.{◌≡◌, ◌≢◌, refl, sym, ◌∙◌, ap, some, List, ◌∷◌, ==-false, Text, codes, ok}
use umka_os.CString.{same_refl}
use umka_os.Vfs.{Ptr, null, Vfs, IsTree, Live}
use umka_os.Vfs.Path.{ascend, step, walk}
use umka_os.Vfs.Path.Total.{descend-Lands}
use umka_os.Vfs.Tree.Create.{IsPlain, step-descend, ne_null_of_Live}

module _ {v : Vfs} (t : IsTree v) where
  step-parent :
      (d q : Ptr) (name : Text)
      → Live v d
      → IsPlain name
      → step v d name ≡ ok q
      → q ≢ null
      → step v q (codes "..") ≡ ok d
  unfolding step ascend
  step-parent d q name live plain e g =
      let (r, f, lands) = descend-Lands t name d live in
      let same_node : r ≡ q = cc (sym f ∙ sym (step-descend v d name plain) ∙ e) in
      let l = lands (λ z. g (sym same_node ∙ z)) in
      let at_q : v.nodes q ≡ some l.node = ap v.nodes (sym same_node) ∙ l.holds in
      rw (same_refl (codes ".."), ascend, at_q) (ap ok l.parent)

  -- In a tree, from a directory that has a child of some name, which is no `.`, `..` or empty, a
  -- walk that goes down to that child and up again by `..` goes on as the walk from the directory.
  pub walk-up :
      (d q : Ptr) (name : Text) (names : List Text)
      → Live v d
      → IsPlain name
      → step v d name ≡ ok q
      → q ≢ null
      → walk v d (name ∷ codes ".." ∷ names) ≡ walk v d names
  unfolding walk
  walk-up d q name names live plain e g =
      rw
        (
          walk,
          e,
          ==-false q null g,
          step-parent d q name live plain e g,
          ==-false d null (ne_null_of_Live t d live),
        )
        refl
