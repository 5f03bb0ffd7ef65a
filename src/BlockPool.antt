-- ===== src/BlockPool.antt =====
-- The pool of blocks that are not confirmed yet: src/plugins/chain_plugin/unresolved_block_pool.cpp
-- and its header. `levels` is the deque: entry d holds the blocks d + 1 above the confirmed one.
-- An `int` index that is only ever -1 or a position is an `Option ℕ`, `none` for -1. A call that
-- would run into undefined behaviour or throw returns `none`.
pub mod Resolve
pub mod Paths
pub mod Links
pub mod Votes
pub mod Push
pub mod Contents
mod Tests
use gruut.Base.{
  ℕ, zero, suc, ◌+◌, String, Bool, true, false, ◌&&◌, Option, none, some, List, [], ◌∷◌, ◌++◌, map,
  ltb, leb, ◌==◌, str_eq, if◌then◌else◌, length, get_or, find_index, any,
}
use gruut.Base.Int.{ℤ, pos, negsuc, sub64, mul64, to_int, pred_ℤ}

pub record Signature : Type 0 where
  pub signer_id : String
  pub signer_sig : String

-- What the pool reads of a `Block`; its transactions, roots and certificates pass through.
pub record Block : Type 0 where
  pub block_id : String
  pub height : ℕ
  pub prev_id : String
  pub block_hash : String
  pub signers : List Signature

abbrev pub same_block : Block → Block → Bool
same_block a b = a.height == b.height && str_eq a.block_hash b.block_hash

abbrev pub num_signers : Block → ℕ
num_signers b = length b.signers

-- The result lists of a processed block (`user_ledger_list` and the like) are not modelled: the
-- pool only copies them.
pub record UnresolvedBlock : Type 0 where
  pub block : Block
  pub cur_vec_idx : Option ℕ
  pub prev_vec_idx : Option ℕ
  pub ssig_sum : ℕ
  pub is_processed : Bool

abbrev pub new_unresolved : Block → ℕ → Option ℕ → UnresolvedBlock
new_unresolved b cur prev = record {
  block = b;
  cur_vec_idx = some cur;
  prev_vec_idx = prev;
  ssig_sum = 0;
  is_processed = false;
}

abbrev pub Level : Type 0
Level = List UnresolvedBlock

pub record Pool : Type 0 where
  pub levels : List Level
  pub confirmed_id : String
  pub confirmed_height : ℕ
  pub confirmed_time : ℕ
  pub confirmed_hash : String
  pub confirmed_prev_id : String

-- `deq_idx` and `vec_idx` are not set on a block that is not added.
pub record PushResult : Type 0 where
  pub block_id : String
  pub block_height : ℕ
  pub deq_idx : Option ℕ
  pub vec_idx : Option ℕ
  pub linked : Bool
  pub duplicated : Bool

abbrev pub confirm_level : ℕ
confirm_level = 3

abbrev pub min_signatures : ℕ
min_signatures = 1

abbrev pub bp_interval : ℕ
bp_interval = 10

pub init : Pool
init = record {
  levels = [];
  confirmed_id = "";
  confirmed_height = 0;
  confirmed_time = 0;
  confirmed_hash = "";
  confirmed_prev_id = "";
}

pub set_pool : String → ℕ → ℕ → String → String → Pool → Pool
set_pool id height time hash prev_id p = record p {
  confirmed_id = id;
  confirmed_height = height;
  confirmed_time = time;
  confirmed_hash = hash;
  confirmed_prev_id = prev_id;
}

-- static_cast<int>(t_height - m_latest_confirmed_height) - 1
abbrev pub deq_index : Pool → ℕ → ℤ
deq_index p t_height = pred_ℤ (to_int (sub64 t_height p.confirmed_height))

-- `if (size < n) resize(n)`
abbrev pub grow : ℕ → List Level → List Level
grow zero ls = ls
grow (suc n) [] = [] ∷ grow n []
grow (suc n) (l ∷ ls) = l ∷ grow n ls

-- A negative index below -1 turns into a huge `size_t`, at which `resize` throws.
resize_for : ℤ → Pool → Option (Bool × Pool)
resize_for (pos d) p = some (true, record p { levels = grow (suc d) p.levels })
resize_for (negsuc zero) p = some (true, p)
resize_for (negsuc (suc n)) p = none

-- Blocks are produced every `bp_interval` seconds: this one is too high for the time since the last.
unfoldable pub too_early : ℕ → ℕ → Pool → Bool
too_early now t_height p =
    ltb (sub64 now p.confirmed_time)
      (mul64 (sub64 (sub64 t_height p.confirmed_height) 1) bp_interval)

pub prepare_deque : ℕ → ℕ → Pool → Option (Bool × Pool)
unfolding resize_for
prepare_deque now t_height p =
    if leb t_height p.confirmed_height
    then some (false, p)
    else if too_early now t_height p
    then some (false, p)
    else resize_for (deq_index p t_height) p

abbrev pub not_added : PushResult
not_added = record {
  block_id = "";
  block_height = 0;
  deq_idx = none;
  vec_idx = none;
  linked = false;
  duplicated = false;
}

abbrev pub duplicate : Block → PushResult
duplicate b = record not_added { block_height = b.height; duplicated = true }

-- each_block.block.getBlockId() == new_block.getPrevBlockId()
abbrev pub is_parent : Block → UnresolvedBlock → Bool
is_parent b e = str_eq e.block.block_id b.prev_id

-- A later level links to a block that arrives after its child.
abbrev pub relink : Block → ℕ → UnresolvedBlock → UnresolvedBlock
relink b vec_idx e = elim e.prev_vec_idx [
  | none ↦ if str_eq b.block_id e.block.prev_id then record e { prev_vec_idx = some vec_idx } else e
  | some _ ↦ e
]

-- emplace_back into bin d, then the links of bin d + 1.
abbrev pub add_at : ℕ → Block → ℕ → Option ℕ → List Level → List Level
add_at d b vec_idx prev [] = []
add_at zero b vec_idx prev (l ∷ []) = (l ++ new_unresolved b vec_idx prev ∷ []) ∷ []
add_at zero b vec_idx prev (l ∷ m ∷ ls) =
    (l ++ new_unresolved b vec_idx prev ∷ []) ∷ map (relink b vec_idx) m ∷ ls
add_at (suc d) b vec_idx prev (l ∷ ls) = l ∷ add_at d b vec_idx prev ls

add_block : ℕ → Block → Option ℕ → Pool → PushResult × Pool
add_block d b prev p =
    let vec_idx = length (get_or p.levels d []) in
    (
      record {
        block_id = b.block_id;
        block_height = b.height;
        deq_idx = some d;
        vec_idx = some vec_idx;
        linked = false;
        duplicated = false;
      },
      record p { levels = add_at d b vec_idx prev p.levels },
    )

-- Bin 0 takes children of the confirmed block only; a later bin takes any block.
link_block : ℕ → Block → Pool → PushResult × Pool
unfolding add_block
link_block zero b p =
    if str_eq b.prev_id p.confirmed_id then add_block 0 b (some 0) p else (not_added, p)
link_block (suc d) b p = add_block (suc d) b (find_index (is_parent b) (get_or p.levels d [])) p

pub place_block : ℤ → Block → Pool → Option (PushResult × Pool)
unfolding link_block
place_block (negsuc n) b p = none
place_block (pos d) b p =
    if any (λ e. same_block e.block b) (get_or p.levels d [])
    then some (duplicate b, p)
    else some (link_block d b p)

pub push_block : ℕ → Block → Pool → Option (PushResult × Pool)
unfolding prepare_deque place_block
push_block now b p = elim (prepare_deque now b.height p) [
  | none ↦ none
  | some (true, q) ↦ place_block (deq_index p b.height) b q
  | some (false, q) ↦ some (not_added, q)
]
