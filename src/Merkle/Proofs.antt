-- ===== src/Merkle/Proofs.antt =====
-- The siblings on the way from an entry to the root prove that the entry is in the tree.
use gruut.Base.{
  Bytes, bytes_eq_refl, ℕ, ◌+◌, ◌-◌, ◌*◌, ◌<◌, ◌≡◌, refl, sym, ap, ◌∙◌, inl, inr, Bool, true, false,
  Option, some, List, [], ◌∷◌, ◌++◌, get_or, Option-cases,
}
use gruut.Merkle.{make_parent, generate, is_empty, climb, is_valid_siblings}
use gruut.Merkle.Nodes.{generate-nodes}

-- The siblings met from an entry of a tree of `max` leaves up to the root, and their sides.
pub data IsPath (max : ℕ) (tree : List Bytes) : ℕ → List (Bool × Bytes) → Type 0 where
  at_root : IsPath max tree (2 * (max - 1)) []
  from_left :
      (m : ℕ) (path : List (Bool × Bytes))
      → m + 1 < max
      → IsPath max tree (max + m) path
      → IsPath max tree (2 * m) ((true, get_or tree (2 * m + 1) []) ∷ path)
  from_right :
      (m : ℕ) (path : List (Bool × Bytes))
      → m + 1 < max
      → IsPath max tree (max + m) path
      → IsPath max tree (2 * m + 1) ((false, get_or tree (2 * m) []) ∷ path)

module _ (known : Bytes → Option Bytes) (sha256 : Bytes → Bytes)
    (right_table : (x h : Bytes) → known x ≡ some h → h ≡ sha256 x) (max : ℕ)
    (contents : List Bytes) where
  abbrev tree : List Bytes
  tree = generate known sha256 max contents

  make_parent-sha256 : (l r : Bytes) → make_parent known sha256 l r ≡ sha256 (l ++ r)
  unfolding make_parent
  make_parent-sha256 l r = elim (Option-cases (known (l ++ r))) [
    | inl e ↦ rw (make_parent, e) refl
    | inr (h, e) ↦ rw (make_parent, e) (right_table (l ++ r) h e)
  ]

  climb-IsPath :
      (j : ℕ) (path : List (Bool × Bytes))
      → IsPath max tree j path
      → climb sha256 (get_or tree j []) path ≡ get_or tree (2 * (max - 1)) []
  unfolding climb
  climb-IsPath j path at_root = refl
  climb-IsPath j path (from_left m rest h p) =
      let node = (generate-nodes known sha256 max contents).1 m h ∙ make_parent-sha256 _ _ in
      ap (λ v. climb sha256 v rest) (sym node) ∙ climb-IsPath (max + m) rest p
  climb-IsPath j path (from_right m rest h p) =
      let node = (generate-nodes known sha256 max contents).1 m h ∙ make_parent-sha256 _ _ in
      ap (λ v. climb sha256 v rest) (sym node) ∙ climb-IsPath (max + m) rest p

-- If the table holds hashes only, the siblings on the way from any entry of a generated tree to its root
-- are accepted for the entry and the root, unless one of these is empty.
pub is_valid_siblings-IsPath :
    (known : Bytes → Option Bytes) (sha256 : Bytes → Bytes)
    → ((x h : Bytes) → known x ≡ some h → h ≡ sha256 x)
    → (max : ℕ) (contents : List Bytes) (j : ℕ) (side : Bool) (path : List (Bool × Bytes))
    → let tree = generate known sha256 max contents in
      IsPath max tree j path
      → is_empty (get_or tree j []) ≡ false
      → is_empty (get_or tree (2 * (max - 1)) []) ≡ false
      → is_valid_siblings sha256
          ((side, get_or tree j []) ∷ path)
          (get_or tree j [])
          (get_or tree (2 * (max - 1)) [])
        ≡ true
unfolding is_valid_siblings
is_valid_siblings-IsPath known sha256 right_table max contents j side path p a b =
    rw
      (
        a,
        b,
        bytes_eq_refl,
        climb-IsPath known sha256 right_table max contents j path p,
        bytes_eq_refl,
      )
      refl
