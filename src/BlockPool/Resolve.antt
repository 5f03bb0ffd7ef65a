-- ===== src/BlockPool/Resolve.antt =====
-- updateTotalNumSSig and resolveBlock of src/plugins/chain_plugin/unresolved_block_pool.cpp.
pub mod Choice
pub mod Keeps
pub mod Confirm
pub mod Live
use gruut.Base.{
  ℕ, suc, ◌+◌, String, Bool, false, ◌&&◌, Option, none, some, List, [], ◌∷◌, map, ltb, ◌==◌, str_eq,
  if◌then◌else◌, get_elem?, modify, any,
}
use gruut.Base.Int.{sub64}
use gruut.BlockPool.{
  Block, UnresolvedBlock, Level, Pool, num_signers, confirm_level, min_signatures,
}

abbrev pub count_own : UnresolvedBlock → UnresolvedBlock
count_own e = record e { ssig_sum = num_signers e.block }

abbrev pub add_votes : ℕ → UnresolvedBlock → UnresolvedBlock
add_votes n e = record e { ssig_sum = e.ssig_sum + n }

-- The test `size() > prev_vec_idx` is `modify`'s: out of range nothing changes.
abbrev pub credit_to : Option ℕ → ℕ → Level → Level
credit_to none n l = l
credit_to (some k) n l = modify k (add_votes n) l

abbrev pub credit : Level → UnresolvedBlock → Level
credit l e = credit_to e.prev_vec_idx e.ssig_sum l

abbrev pub credit_all : Level → Level → Level
credit_all l [] = l
credit_all l (e ∷ m) = credit_all (credit l e) m

abbrev pub credit_first : Level → List Level → List Level
credit_first l [] = l ∷ []
credit_first l (m ∷ ls) = credit_all l m ∷ m ∷ ls

-- The loop runs from the last bin down to bin 1.
abbrev pub sum_up : List Level → List Level
sum_up [] = []
sum_up (l ∷ ls) = credit_first l (sum_up ls)

unfoldable pub update_total_num_ssig : Pool → Pool
update_total_num_ssig p = record p { levels = sum_up (map (map count_own) p.levels) }

-- prev_vec_idx == k
abbrev pub is_position : ℕ → Option ℕ → Bool
is_position k none = false
is_position k (some j) = j == k

abbrev pub links_to : ℕ → UnresolvedBlock → Bool
links_to k e = is_position k e.prev_vec_idx

pub record Best : Type 0 where
  pub index : Option ℕ
  pub highest : ℕ

-- The loop over bin 0 for the linked block with the most signatures, from position i.
unfoldable pub find_best : ℕ → Level → Best → Best
find_best i [] best = best
find_best i (e ∷ l) best = find_best (suc i) l (
    if links_to 0 e && ltb best.highest e.ssig_sum
    then record { index = some i; highest = e.ssig_sum }
    else best)

abbrev pub no_best : Best
no_best = record { index = none; highest = 0 }

-- The blocks of the new bin 0: those that the confirmed block does not precede lose their link.
abbrev pub relink_root : String → UnresolvedBlock → UnresolvedBlock
relink_root id e =
    if str_eq e.block.prev_id id
    then record e { prev_vec_idx = some 0 }
    else record e { prev_vec_idx = none }

abbrev pub relink_front : String → List Level → List Level
relink_front id [] = []
relink_front id (l ∷ ls) = map (relink_root id) l ∷ ls

-- `resolved` is the result and the flag; `dropped` the ids of the bin that goes.
pub record Resolution : Type 0 where
  pub resolved : Option UnresolvedBlock
  pub dropped : List String
  pub pool : Pool

abbrev pub unresolved : Pool → Resolution
unresolved p = record { resolved = none; dropped = []; pool = p }

abbrev pub block_id_of : UnresolvedBlock → String
block_id_of e = e.block.block_id

unfoldable pub confirm : UnresolvedBlock → Level → List Level → Pool → Resolution
confirm e front rest p = record {
  resolved = some e;
  dropped = map block_id_of front;
  pool = record p {
    levels = relink_front e.block.block_id rest;
    confirmed_id = e.block.block_id;
    confirmed_height = e.block.height;
    confirmed_hash = e.block.block_hash;
    confirmed_prev_id = p.confirmed_id;
  };
}

-- With the chosen position: its signatures must suffice, and some block of bin 1 must follow it.
pub choose : Best → Level → Level → List Level → Pool → Resolution
choose best front next rest p = elim best.index [
  | none ↦ unresolved p
  | some k ↦
      if ltb best.highest min_signatures
      then unresolved p
      else if any (links_to k) next
      then elim (get_elem? front k) [
        | none ↦ unresolved p
        | some e ↦ confirm e front (next ∷ rest) p
      ]
      else unresolved p
]

pub resolve_front : List Level → Pool → Resolution
unfolding choose find_best
resolve_front [] p = unresolved p
resolve_front (l ∷ []) p = unresolved p
resolve_front ([] ∷ m ∷ ls) p = unresolved p
resolve_front ((e ∷ l) ∷ [] ∷ ls) p = unresolved p
resolve_front ((e ∷ l) ∷ (f ∷ m) ∷ ls) p = choose (find_best 0 (e ∷ l) no_best) (e ∷ l) (f ∷ m) ls p

unfoldable pub resolve_block : Block → Pool → Resolution
unfolding resolve_front
resolve_block b p =
    if ltb confirm_level (sub64 b.height p.confirmed_height)
    then (let q = update_total_num_ssig p in resolve_front q.levels q)
    else unresolved p
