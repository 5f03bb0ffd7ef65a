-- ===== src/Contract/Engine.antt =====
-- The contracts of a block: src/contract/engine.cpp, with the cache of contracts of
-- src/contract/include/contract_manager.hpp and the results of src/contract/query_composer.cpp.
pub mod Fixed
pub mod Results
use Prim.Native.String.{◌++◌}
use gruut.Base.{
  ℕ, String, Bool, true, false, not, ◌&&◌, ◌||◌, Option, none, some, List, [], ◌∷◌, map,
  if◌then◌else◌, on_option, Assoc, at, insert_or_assign,
}
use gruut.Base.Int.{ℤ, pos}
use gruut.Contract.Text.{empty}
use gruut.Contract.Document.{Element}
use gruut.Contract.Xml.{ElementParser, set_contract}
use gruut.Contract.Set.{Contents}
use gruut.Contract.Condition.Manager.{ConditionManager, new_manager}
use gruut.Contract.DataManager.{DataManager, DataAttribute, new_data_manager, clear}
use gruut.Contract.DataManager.Lookups.{get_world, get_chain, no_attributes}
use gruut.Contract.LookUps.{RunState}
use gruut.Contract.Runner.{
  Surroundings, Authority, RunResult, failed, no_authority, set_world_chain, read_user_attributes,
  run,
}
use gruut.Contract.Runner.Transaction.{
  Tx, SetTx, set_ok, set_error, no_part, set_transaction, min_user_fee,
}

-- The contracts by their ids, "" for one that the storage did not have.
abbrev pub ContractCache : Type 0
ContractCache = Assoc String

-- The storage of contracts: the text of the first row, none where the result or its data is empty.
abbrev pub ReadContract : Type 0
ReadContract = String → Option String

abbrev pub non_empty : String → Option String
non_empty s = if empty s then none else some s

unfoldable pub get_contract : ReadContract → String → ContractCache → Option String × ContractCache
get_contract read cid cache =
    on_option (at cid cache)
      (on_option (read cid) (none, insert_or_assign cid "" cache)
        λ xml_doc. (non_empty xml_doc, insert_or_assign cid xml_doc cache))
      λ xml_doc. (non_empty xml_doc, cache)

-- What stays from one transaction to the next: the data manager with its results of queries, the results of
-- conditions, and the contracts.
pub record Loop : Type 0 where
  pub data_manager : DataManager
  pub condition_manager : ConditionManager
  pub contract_cache : ContractCache

module _ (sr : Surroundings) (read : ReadContract) (world chain : List DataAttribute) where
  abbrev fail : Tx → String → Option RunResult
  fail tx info = some (failed sr tx.txid (no_authority sr) info)

  -- The run, once the contract is there.
  abbrev pub run_tx : Tx → ElementParser → Loop → Option RunResult × Loop
  run_tx tx ep l = elim (set_transaction tx l.data_manager) [
    | no_part ↦ (none, l)
    | set_error error ↦ (fail tx ("transaction is not valid (" ++ error ++ ")"), l)
    | set_ok dm ↦
        let (has_users, dm') = read_user_attributes sr dm in
        let (r, s) = run sr ep tx.inputs (dm', l.condition_manager) in
        if has_users
        then (r, record l { data_manager = s.0; condition_manager = s.1 })
        else (fail tx "error on reading user attributes", record l { data_manager = dm' })
  ]

  -- The contract is looked up and parsed.
  abbrev pub contract_tx : Tx → Loop → Option RunResult × Loop
  contract_tx tx l =
      let (doc, cache) = get_contract read tx.cid l.contract_cache in
      let l' = record l { contract_cache = cache } in
      let missing : Option RunResult × Loop =
        (fail tx "corresponding contract does not exist", l') in
      on_option doc missing
        λ xml_doc. on_option (set_contract (sr.parse_xml xml_doc)) missing λ ep. run_tx tx ep l'

  -- The result for a transaction, none if an exception ends the block.
  unfoldable pub proc_tx : Tx → Loop → Option RunResult × Loop
  proc_tx tx l =
      let cleared = record l { data_manager = clear l.data_manager } in
      let set = record l { data_manager = set_world_chain sr world chain (clear l.data_manager) } in
      if empty tx.txid || empty tx.cid
      then (fail tx "transaction is not valid", l)
      else if no_attributes world || no_attributes chain
      then (fail tx "error on configuration of world and chain", cleared)
      else contract_tx tx set

  unfoldable pub proc_txs : List Tx → Loop → Option (List RunResult) × Loop
  proc_txs [] l = (some [], l)
  proc_txs (tx ∷ txs) l =
      let (r, l') = proc_tx tx l in
      let (rest, end_) = proc_txs txs l' in
      on_option r (none, l') λ res. (on_option rest none λ rs. some (res ∷ rs), end_)

-- A result as it leaves the engine: a part that is erased is none.
pub record Composed : Type 0 where
  pub txid : String
  pub status : Bool
  pub info : Option String
  pub authority : Option Authority
  pub fee : Option (ℤ × ℤ)
  pub queries : Option (List (String × Contents))

abbrev pub compose_one : RunResult → Composed
compose_one r =
    if r.status
    then record {
      txid = r.txid;
      status = true;
      info = none;
      authority = some r.authority;
      fee = r.fee;
      queries = some r.queries;
    }
    else record {
      txid = r.txid;
      status = false;
      info = some r.info;
      authority = none;
      fee = some (pos min_user_fee, pos 0);
      queries = none;
    }

unfoldable pub compose : List RunResult → List Composed
compose rs = map compose_one rs

-- nullopt, an exception, or a result for the block.
pub data Processed : Type 0 where
  nothing : Processed
  thrown : Processed
  processed : List Composed → Processed

-- procBlock, once the storage is attached; the contract runner is a new one, and the contracts stay.
unfoldable pub proc_block :
    Surroundings → ReadContract → List Tx → ContractCache → Processed × ContractCache
proc_block sr read [] cache = (nothing, cache)
proc_block sr read (tx ∷ txs) cache =
    let (world, dm1) = get_world sr.storage new_data_manager in
    let (chain, dm2) = get_chain sr.storage dm1 in
    let (results, l) =
      proc_txs sr read world chain (tx ∷ txs)
        record { data_manager = dm2; condition_manager = new_manager; contract_cache = cache } in
    if no_attributes world || no_attributes chain
    then (nothing, cache)
    else (on_option results thrown λ rs. processed (compose rs), l.contract_cache)
