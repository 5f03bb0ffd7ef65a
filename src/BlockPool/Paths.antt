-- ===== src/BlockPool/Paths.antt =====
-- Lookups in the pool: getPath, getUnresolvedBlock, setUnresolvedBlock, getLowestUnprocessedBlock
-- and getPoolBlockIds of src/plugins/chain_plugin/unresolved_block_pool.cpp. An index that is out
-- of range, which the source does not test, makes the call return `none`.
pub mod Descent
pub mod Ancestry
use mathlib.Core.List.{flat_map}
use gruut.Base.{
  ℕ, zero, suc, String, Bool, true, not, ◌&&◌, Option, none, some, List, [], ◌∷◌, map, ◌++◌, ◌==◌,
  str_eq, if◌then◌else◌, get_elem?, modify, find_index,
}
use gruut.Base.Int.{pos, negsuc}
use gruut.BlockPool.{Block, UnresolvedBlock, Level, Pool, deq_index}

abbrev pub at? : List Level → ℕ → ℕ → Option UnresolvedBlock
at? ls d v = elim (get_elem? ls d) [ none ↦ none | some l ↦ get_elem? l v ]

-- Reading the link of position (d, v), where v may be -1.
abbrev pub prev_of : List Level → ℕ → Option ℕ → Option (Option ℕ)
prev_of ls d none = none
prev_of ls d (some v) = elim (at? ls d v) [ none ↦ none | some e ↦ some e.prev_vec_idx ]

abbrev pub push_back : Option (List (Option ℕ)) → Option ℕ → Option (List (Option ℕ))
push_back none v = none
push_back (some path) v = some (path ++ v ∷ [])

-- The `while` loop from bin d, position v, down to bin 0: the entries 0 to d of the path.
unfoldable pub walk : List Level → ℕ → Option ℕ → Option (List (Option ℕ))
walk ls zero v = some (v ∷ [])
walk ls (suc d) v = elim (prev_of ls (suc d) v) [ none ↦ none | some w ↦ push_back (walk ls d w) v ]

-- The block at the root must link to the confirmed one; if not, the path is cut to its first entry.
abbrev pub check_root : List Level → List (Option ℕ) → Option (List (Option ℕ))
check_root ls [] = none
check_root ls (v ∷ path) = elim (prev_of ls 0 v) [
  | none ↦ none
  | some none ↦ some (v ∷ [])
  | some (some zero) ↦ some (v ∷ path)
  | some (some (suc w)) ↦ some (v ∷ [])
]

pub path_from : List Level → String → ℕ → Level → Option (List (Option ℕ))
unfolding walk
path_from ls id d l = elim (walk ls d (find_index (λ e. str_eq id e.block.block_id) l)) [
  | none ↦ none
  | some path ↦ check_root ls path
]

abbrev pub path_at : List Level → String → ℕ → Option (List (Option ℕ))
path_at ls id d = elim (get_elem? ls d) [ none ↦ none | some l ↦ path_from ls id d l ]

-- At the confirmed height the path is empty; a height below it asks for a vector of negative size.
unfoldable pub get_path : String → ℕ → Pool → Option (List (Option ℕ))
unfolding path_from
get_path id height p = if str_eq id "" then none else elim (deq_index p height) [
  | pos d ↦ path_at p.levels id d
  | negsuc zero ↦ some []
  | negsuc (suc n) ↦ none
]

abbrev is_block : String → ℕ → UnresolvedBlock → Bool
is_block id height e = str_eq e.block.block_id id && e.block.height == height

find_in : (UnresolvedBlock → Bool) → Level → Option UnresolvedBlock
find_in p [] = none
find_in p (e ∷ l) = if p e then some e else find_in p l

find_block : (UnresolvedBlock → Bool) → List Level → Option UnresolvedBlock
unfolding find_in
find_block p [] = none
find_block p (l ∷ ls) = elim (find_in p l) [ none ↦ find_block p ls | some e ↦ some e ]

-- `none` where the source logs an error and returns a default block.
unfoldable pub get_unresolved_block : String → ℕ → Pool → Option UnresolvedBlock
unfolding find_block
get_unresolved_block id height p = find_block (is_block id height) p.levels

store_at : ℕ → ℕ → UnresolvedBlock → Pool → Option Pool
store_at d v e p = elim (at? p.levels d v) [
  | none ↦ none
  | some _ ↦
      some
        (record p { levels = modify d (modify v (λ _. record e { is_processed = true })) p.levels })
]

unfoldable pub set_unresolved_block : UnresolvedBlock → Pool → Option Pool
unfolding store_at
set_unresolved_block e p = elim (deq_index p e.block.height) [
  | negsuc n ↦ none
  | pos d ↦ elim e.cur_vec_idx [ none ↦ none | some v ↦ store_at d v e p ]
]

-- Nobody processed: the first block of bin 0. If that one is, the function ends without a value.
first_unprocessed : List Level → Option Block
first_unprocessed ls = elim (at? ls 0 0) [
  | none ↦ none
  | some e ↦ if e.is_processed then none else some e.block
]

abbrev step_down : List Level → UnresolvedBlock → UnresolvedBlock → Option Block → Option Block
step_down ls e parent below =
    if not e.is_processed && parent.is_processed then some e.block else below

-- Down the links from (d, v) to an unprocessed block with a processed parent.
unfoldable pub lowest_from : List Level → ℕ → ℕ → Option Block
unfolding first_unprocessed
lowest_from ls zero v = first_unprocessed ls
lowest_from ls (suc d) v = elim (at? ls (suc d) v) [
  | none ↦ none
  | some e ↦ elim e.prev_vec_idx [
    | none ↦ none
    | some w ↦ elim (at? ls d w) [
      | none ↦ none
      | some parent ↦ step_down ls e parent (lowest_from ls d w)
    ]
  ]
]

unfoldable pub get_lowest_unprocessed_block : ℕ → ℕ → Pool → Option Block
unfolding lowest_from
get_lowest_unprocessed_block d v p = lowest_from p.levels d v

unfoldable pub get_pool_block_ids : Pool → List String
get_pool_block_ids p = flat_map (map (λ (e : UnresolvedBlock). e.block.block_id)) p.levels
