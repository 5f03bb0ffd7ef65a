-- ===== src/Merkle/Tests.antt =====
-- A tree of four leaves, and instances of the theorems.
use gruut.Base.{
  Bytes, ℕ, ◌+◌, ◌*◌, ◌<◌, ◌≡◌, refl, Bool, true, false, Option, none, List, [], ◌∷◌, get_or, arith,
}
use gruut.Merkle.{make_parent, generate, parents, leaves, is_valid_siblings, dummy_leaf}
use gruut.Merkle.Nodes.{generate-nodes}
use gruut.Merkle.Proofs.{IsPath, at_root, from_left, from_right, is_valid_siblings-IsPath}

abbrev no_table : Bytes → Option Bytes
no_table x = none

-- In place of a hash, the bytes behind a mark.
abbrev mark : Bytes → Bytes
mark x = 7 ∷ x

abbrev txs : List Bytes
txs = (1 ∷ []) ∷ (2 ∷ []) ∷ (3 ∷ []) ∷ (4 ∷ []) ∷ []

abbrev small_tree : List Bytes
small_tree = generate no_table mark 4 txs

-- The first entry, which the block producer takes for the root, is the first leaf.
first_and_last :
    (get_or small_tree 0 [] ≡ 1 ∷ []) × (get_or small_tree 6 [] ≡ 7 ∷ 7 ∷ 1 ∷ 2 ∷ 7 ∷ 3 ∷ 4 ∷ [])
unfolding generate parents leaves make_parent
first_and_last = (refl, refl)

generate-nodes_example :
    ((j : ℕ) → j < 4 → get_or small_tree j [] ≡ get_or txs j dummy_leaf)
    × ((m : ℕ)
        → m + 1 < 4
        → get_or small_tree (4 + m) []
          ≡ make_parent no_table mark
              (get_or small_tree (2 * m) [])
              (get_or small_tree (2 * m + 1) []))
generate-nodes_example = generate-nodes no_table mark 4 txs

abbrev siblings : List (Bool × Bytes)
siblings = (true, get_or small_tree 3 []) ∷ (false, get_or small_tree 4 []) ∷ []

siblings-IsPath : IsPath 4 small_tree 2 siblings
siblings-IsPath = from_left 1 _ (omega arith) (from_right 2 [] (omega arith) at_root)

is_valid_siblings-IsPath_example :
    is_valid_siblings mark
      ((true, get_or small_tree 2 []) ∷ siblings)
      (get_or small_tree 2 [])
      (get_or small_tree 6 [])
    ≡ true
unfolding generate parents leaves make_parent
is_valid_siblings-IsPath_example =
    is_valid_siblings-IsPath no_table mark (λ x h e. cc) 4 txs 2 true siblings siblings-IsPath refl
      refl
