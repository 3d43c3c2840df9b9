-- ===== src/Loader/Found.antt =====
-- What an image asks for, and when it is found in a tree.
use umka_os.Base.{
  ℕ, ◌<◌, ◌≡◌, ◌≢◌, sym, ◌∙◌, ap, false, some, List, ◌∷◌, ◌++◌, arith, subst, length, Text, slash,
  ok,
}
use umka_os.Vfs.{Ptr, Node, Vfs, Live, IsTree}
use umka_os.Vfs.Change.{Extends}
use umka_os.Vfs.Path.{get_path}
use umka_os.Vfs.Path.Stable.{get_path-stable}
use umka_os.Vfs.Stream.{word}
use umka_os.Vfs.Tree.Child.{IsChild}
use umka_os.Vfs.Tree.Below.{
  Below, Below-trans, IsChild-Below, child_unique, Holds, Below-back, IsChild-Extends,
}
use umka_os.Loader.Image.{Entries, nothing, dir, file}
use umka_os.Loader.Refine.{CanPack}
use umka_os.Loader.Place.{IsEntry}

-- No entry of the directory has the name.
abbrev pub Misses : Entries → Text → Type 0
Misses nothing name = Unit
Misses (dir other inner rest) name = (name ≢ other) × Misses rest name
Misses (file other bytes rest) name = (name ≢ other) × Misses rest name

-- The entries of every directory have different names.
abbrev pub Distinct : Entries → Type 0
Distinct nothing = Unit
Distinct (dir name inner rest) = Misses rest name × Distinct inner × Distinct rest
Distinct (file name bytes rest) = Misses rest name × Distinct rest

-- The names fit the arrays below the directory `path`, and the sizes 32 bits.
abbrev pub Fits : Text → Entries → Type 0
Fits path nothing = Unit
Fits path (dir name inner rest) =
    IsEntry path name × Fits (path ++ slash ∷ name) inner × Fits path rest
Fits path (file name bytes rest) = IsEntry path name × (length bytes < word) × Fits path rest

-- Every entry is found at its path, as a child of its directory `d`; a file with its bytes.
abbrev pub Found : Entries → Text → Ptr → Vfs → Type 0
Found nothing path d v = Unit
Found (dir name inner rest) path d v =
    ((q : Ptr) × (get_path v (path ++ slash ∷ name) false ≡ ok q)
      × IsChild v d name q
      × Found inner (path ++ slash ∷ name) q v)
    × Found rest path d v
Found (file name bytes rest) path d v =
    ((q : Ptr) × (get_path v (path ++ slash ∷ name) false ≡ ok q)
      × IsChild v d name q
      × Holds v q bytes)
    × Found rest path d v

pub Fits-CanPack : (es : Entries) (path : Text) → Fits path es → CanPack es
Fits-CanPack nothing path h = tt
Fits-CanPack (dir name inner rest) path (e, h, g) =
    (e.string, Fits-CanPack inner (path ++ slash ∷ name) h, Fits-CanPack rest path g)
Fits-CanPack (file name bytes rest) path (e, small, g) = (e.string, small, Fits-CanPack rest path g)

-- The node `r` is not below an entry of the directory `d` that the image names.
abbrev pub Apart : Vfs → Ptr → Entries → Ptr → Type 0
Apart v d es r =
    (c : Ptr) (k : Node)
    → v.nodes c ≡ some k
    → k.parent ≡ d
    → d < c
    → Below v c r
    → Misses es k.filename

pub Misses-tail :
    (es rest : Entries) {v : Vfs} {d r : Ptr}
    → ((name : Text) → Misses es name → Misses rest name)
    → Apart v d es r
    → Apart v d rest r
Misses-tail es rest tail apart =
    λ c k holds parent later b. tail k.filename (apart c k holds parent later b)

-- A node that was apart is apart after the tree has grown.
pub Apart-Extends :
    {v w : Vfs} (es : Entries) {d r : Ptr}
    → IsTree v
    → IsTree w
    → Extends v w
    → Live v r
    → Apart v d es r
    → Apart w d es r
Apart-Extends es t u x live apart = λ c k holds parent later b.
    let (b', (k', holds')) = Below-back t u x (k, holds) live b in
    let (m, f, kept) = x.kept c k' holds' in
    let one : m ≡ k = cc in
    subst (Misses es) (sym kept.filename ∙ ap (λ n. n.filename) one)
      (apart c k' holds' (sym kept.parent ∙ ap (λ n. n.parent) one ∙ parent) later b')

-- A node below an entry is apart from the entries with other names.
pub Apart-other :
    {v : Vfs} (es : Entries) {d q r : Ptr} {name : Text}
    → IsChild v d name q
    → Below v q r
    → Misses es name
    → Apart v d es r
Apart-other {v} es child over misses = λ c k holds parent later b.
    let one = child_unique k child over holds parent later b in
    let same_node : k ≡ child.node = let e = rw one at holds in cc (child.holds) in
    subst (Misses es) (sym (ap (λ n. n.filename) same_node ∙ child.filename)) misses

-- A node that is apart from the entries is not below one of them.
pub Apart-not-Below :
    {v : Vfs} (es : Entries) {d q r : Ptr} {name : Text}
    → IsChild v d name q
    → Apart v d es r
    → Below v q r
    → Misses es name
Apart-not-Below {v} es {q = q} child apart b =
    subst (Misses es) child.filename (apart q child.node child.holds child.parent child.later b)

-- Entries are found still when what is below the directory is kept.
pub Found-stable :
    {v w : Vfs} (es : Entries) (path : Text) (d : Ptr)
    → IsTree v
    → Extends v w
    → ((r : Ptr) (bytes : List ℕ) → Below v d r → Holds v r bytes → Holds w r bytes)
    → Found es path d v
    → Found es path d w
Found-stable nothing path d t x keep h = tt
Found-stable (dir name inner rest) path d t x keep ((q, led, child, h), g) = (
  (
    q,
    get_path-stable t x (path ++ slash ∷ name) false q led (λ z. omega (arith, child.later)),
    IsChild-Extends x child,
    Found-stable inner (path ++ slash ∷ name) q t x
        (λ r bytes b. keep r bytes (Below-trans (IsChild-Below child) b)) h,
  ),
  Found-stable rest path d t x keep g,
)
Found-stable (file name bytes rest) path d t x keep ((q, led, child, h), g) = (
  (
    q,
    get_path-stable t x (path ++ slash ∷ name) false q led (λ z. omega (arith, child.later)),
    IsChild-Extends x child,
    keep q bytes (IsChild-Below child) h,
  ),
  Found-stable rest path d t x keep g,
)
