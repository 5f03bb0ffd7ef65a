-- ===== src/Contract/Parallel.antt =====
-- The transactions of a block, split over the threads of the contract engine:
-- src/contract/tx_parallelizer.cpp.
pub mod Kept
pub mod Apart
mod Tests
use gruut.Base.{
  ℕ, zero, suc, ◌+◌, String, Bool, true, false, Option, none, some, List, [], ◌∷◌, ◌++◌, str_eq,
  ltb, if◌then◌else◌, length, get_elem?, get_or, modify, find_index, any,
}

-- What the splitting reads of a transaction, and the transaction itself.
pub record Tx : Type 0 where
  pub user : String
  pub receiver : String
  pub json : String

-- The entries at one index of independ_user, independ_recv and independ_txs.
pub record Group : Type 0 where
  pub users : List String
  pub receivers : List String
  pub txs : List Tx

abbrev pub no_group : Group
no_group = record { users = []; receivers = []; txs = [] }

abbrev pub user_related_bin : String → List Group → Option ℕ
user_related_bin user gs = find_index (λ g. any (λ u. str_eq u user) g.users) gs

abbrev pub recv_related_bin : String → List Group → Option ℕ
recv_related_bin receiver gs = find_index (λ g. any (λ r. str_eq r receiver) g.receivers) gs

-- push_back to all three.
abbrev pub push : Tx → Group → Group
push t g = record {
  users = g.users ++ t.user ∷ [];
  receivers = g.receivers ++ t.receiver ∷ [];
  txs = g.txs ++ t ∷ [];
}

-- std::copy of the entries of h to the ends of those of g
abbrev pub copy : Group → Group → Group
copy h g = record {
  users = g.users ++ h.users;
  receivers = g.receivers ++ h.receivers;
  txs = g.txs ++ h.txs;
}

-- independ_user[recv_related_bin].clear()
abbrev pub clear_users : Group → Group
clear_users g = record g { users = [] }

-- independ_recv[user_related_bin].clear(), independ_txs[user_related_bin].clear()
abbrev pub clear_rest : Group → Group
clear_rest g = record g { receivers = []; txs = [] }

-- A transaction whose user is in group u and whose receiver is in group r. If they are the same, the
-- source copies a range to its own end, which is undefined; the entries copied here are the old ones.
abbrev pub join : ℕ → ℕ → Tx → List Group → List Group
join u r t gs =
    modify u (λ g. push t (clear_rest g))
      (modify r clear_users (modify u (copy (get_or gs r no_group)) gs))

abbrev pub place : Option ℕ → Option ℕ → Tx → List Group → List Group
place (some u) (some r) t gs = join u r t gs
place (some u) none t gs = modify u (push t) gs
place none (some r) t gs = modify r (push t) gs
place none none t gs = gs ++ push t no_group ∷ []

unfoldable pub group_from : List Tx → List Group → List Group
group_from [] gs = gs
group_from (t ∷ ts) gs =
    group_from ts (place (user_related_bin t.user gs) (recv_related_bin t.receiver gs) t gs)

-- The first bin that is the smallest of those below `least`, from index j on.
unfoldable pub min_bin_from : ℕ → ℕ → ℕ → List (List Tx) → ℕ
min_bin_from j least best [] = best
min_bin_from j least best (b ∷ bs) =
    if ltb (length b) least
    then min_bin_from (suc j) (length b) j bs
    else min_bin_from (suc j) least best bs

unfoldable pub distribute : ℕ → List Group → List (List Tx) → List (List Tx)
distribute num_tx [] bins = bins
distribute num_tx (g ∷ gs) bins =
    distribute num_tx gs (modify (min_bin_from 0 num_tx 0 bins) (λ b. b ++ g.txs) bins)

-- NUM_GSCE_THREAD = 4
unfoldable pub parallelize : List Tx → List (List Tx)
parallelize block = distribute (length block) (group_from block []) ([] ∷ [] ∷ [] ∷ [] ∷ [])
