-- ===== src/Vfs/Listing/Visible.antt =====
-- A listing shows the children of a directory that are not hidden, in their order.
use umka_os.Base.{
  ℕ, zero, suc, ◌≡◌, ◌≢◌, Bool, true, false, none, some, List, [], ◌∷◌, ◌==◌, if◌then◌else◌, Res,
  ok, fault, ◌>>=◌,
}
use umka_os.Vfs.{Ptr, null, Node, Vfs}
use umka_os.Vfs.Listing.{is_hidden, fso_next}

-- The nodes from `p` on, by `sibling`.
abbrev pub Siblings : Vfs → Ptr → List Ptr → Type 0
Siblings v p [] = p ≡ null
Siblings v p (x ∷ xs) =
    (p ≡ x) × (x ≢ null) × ((n : Node) × (v.nodes x ≡ some n) × Siblings v n.sibling xs)

unfoldable pub hidden : Vfs → Ptr → Bool
hidden v p = elim (v.nodes p) [ none ↦ false | some n ↦ is_hidden n.filename ]

-- The nodes of a list that are not hidden.
unfoldable pub visible : Vfs → List Ptr → List Ptr
visible v [] = []
visible v (x ∷ xs) = let rest = visible v xs in if hidden v x then rest else x ∷ rest

first_visible : Vfs → List Ptr → Ptr
first_visible v [] = null
first_visible v (x ∷ xs) = let rest = first_visible v xs in if hidden v x then rest else x

-- The loop of a client, `for (; p; p = vfsNext(p))`.
unfoldable pub collect : ℕ → ℕ → Vfs → Ptr → Res (List Ptr)
collect zero fuel v p = fault
collect (suc k) fuel v p = elim (p == null) [
  | true ↦ ok []
  | false ↦ fso_next fuel v p >>= λ q. collect k fuel v q >>= λ rest. ok (p ∷ rest)
]
