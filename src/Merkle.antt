-- ===== src/Merkle.antt =====
-- The Merkle tree of a block's transactions: src/plugins/chain_plugin/include/static_merkle_tree.hpp.
-- `max` stands for MAX_MERKLE_LEAVES, `known` for the table HASH_LOOKUP and `sha256` for Sha256::hash.
pub mod Nodes
pub mod Proofs
mod Tests
use gruut.Base.{
  Bytes, bytes_eq, ℕ, zero, suc, ◌+◌, ◌-◌, ◌*◌, Bool, true, false, ◌&&◌, ◌||◌, Option, none, some,
  List, [], ◌∷◌, ◌++◌, ◌==◌, if◌then◌else◌, get_or, modify,
}

abbrev pub max_merkle_leaves : ℕ
max_merkle_leaves = 4096

-- n copies
abbrev pub repeat {ℓ} : {A : Type ℓ} → ℕ → A → List A
repeat zero x = []
repeat (suc n) x = x ∷ repeat n x

abbrev pub dummy_leaf : Bytes
dummy_leaf = repeat 32 0

-- The first `max` contents, and dummies where there are fewer.
unfoldable pub leaves : ℕ → List Bytes → List Bytes
leaves zero contents = []
leaves (suc n) [] = dummy_leaf ∷ leaves n []
leaves (suc n) (c ∷ contents) = c ∷ leaves n contents

module _ (known : Bytes → Option Bytes) (sha256 : Bytes → Bytes) where
  unfoldable pub make_parent : Bytes → Bytes → Bytes
  make_parent left right = elim (known (left ++ right)) [
    | none ↦ sha256 (left ++ right)
    | some h ↦ h
  ]

  -- The loop from i = 2 * k on, for n rounds, where parent_pos is max + k.
  unfoldable pub parents : ℕ → ℕ → ℕ → List Bytes → List Bytes
  parents max zero k tree = tree
  parents max (suc n) k tree = parents max n (suc k) (
      modify (max + k) (λ _. make_parent (get_or tree (2 * k) []) (get_or tree (2 * k + 1) []))
        tree)

  -- m_merkle_tree has 2 * max - 1 entries; `i < 2 * max - 3` gives max - 1 rounds.
  unfoldable pub generate : ℕ → List Bytes → List Bytes
  generate max contents = parents max (max - 1) 0 (leaves max contents ++ repeat (max - 1) [])

abbrev pub is_empty {ℓ} : {A : Type ℓ} → List A → Bool
is_empty [] = true
is_empty (x ∷ xs) = false

-- The value at the top of a path; true says that the sibling stands on the right.
unfoldable pub climb : (Bytes → Bytes) → Bytes → List (Bool × Bytes) → Bytes
climb sha256 value [] = value
climb sha256 value ((true, sibling) ∷ path) = climb sha256 (sha256 (value ++ sibling)) path
climb sha256 value ((false, sibling) ∷ path) = climb sha256 (sha256 (sibling ++ value)) path

-- isValidSiblings: the first entry is the value itself.
unfoldable pub is_valid_siblings : (Bytes → Bytes) → List (Bool × Bytes) → Bytes → Bytes → Bool
is_valid_siblings sha256 [] my_val root_val = false
is_valid_siblings sha256 ((side, first) ∷ path) my_val root_val =
    if is_empty my_val || is_empty root_val
    then false
    else if bytes_eq first my_val
    then bytes_eq root_val (climb sha256 first path)
    else false
