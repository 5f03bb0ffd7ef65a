-- ===== src/SupportSig.antt =====
-- The support signatures that a block producer collects:
-- src/plugins/block_producer_plugin/ssig_pool.cpp. The pool is the list of its entries, one for an id.
pub mod Fetched
mod Tests
use gruut.Base.{
  ℕ, String, Bool, true, false, List, [], ◌∷◌, ◌++◌, str_eq, if◌then◌else◌, length, any,
}

pub record SupportSigInfo : Type 0 where
  pub id : String
  pub sig : String
  pub cert : String

abbrev pub SupportSigPool : Type 0
SupportSigPool = List SupportSigInfo

abbrev pub has_id : String → SupportSigPool → Bool
has_id id pool = any (λ (s : SupportSigInfo). str_eq s.id id) pool

-- emplace: an id that is there keeps its entry.
unfoldable pub add : SupportSigInfo → SupportSigPool → SupportSigPool
add s pool = if has_id s.id pool then pool else pool ++ s ∷ []

abbrev pub size : SupportSigPool → ℕ
size pool = length pool

abbrev pub clear : SupportSigPool → SupportSigPool
clear pool = []

-- What a caller and the other threads do to the pool, in the order in which they take its lock.
-- fetchAll is two steps, since it gives up the lock between its copy and its `clear`.
pub data Step : Type 0 where
  add_step : SupportSigInfo → Step
  copy_step : Step
  clear_step : Step

-- The pool, and what the copies have returned.
unfoldable pub run :
    List Step → SupportSigPool → List SupportSigInfo → SupportSigPool × List SupportSigInfo
run [] pool out = (pool, out)
run (add_step s ∷ steps) pool out = run steps (add s pool) out
run (copy_step ∷ steps) pool out = run steps pool (out ++ pool)
run (clear_step ∷ steps) pool out = run steps (clear pool) out

abbrev pub fetch_all : List Step
fetch_all = copy_step ∷ clear_step ∷ []
