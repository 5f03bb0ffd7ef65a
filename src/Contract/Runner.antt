-- ===== src/Contract/Runner.antt =====
-- The run of a contract for one transaction: src/contract/contract_runner.cpp.
pub mod Transaction
pub mod Charged
use Prim.Native.String.{◌++◌}
use gruut.Base.{
  ℕ, String, Bool, true, false, not, ◌&&◌, Option, none, some, List, [], ◌∷◌, if◌then◌else◌,
  on_option,
}
use gruut.Base.Int.{ℤ, pos}
use gruut.Contract.Text.{empty}
use gruut.Contract.Datamap.{Datamap, eval}
use gruut.Contract.Document.{Element}
use gruut.Contract.Condition.Services.{Services}
use gruut.Contract.Condition.Compare.{ltb_ℤ}
use gruut.Contract.Condition.Time.{evalue as evalue_time}
use gruut.Contract.Condition.Manager.{ConditionManager, evalue_cached}
use gruut.Contract.LookUps.{RunState, evalue_conditions}
use gruut.Contract.Xml.{ElementParser}
use gruut.Contract.Fee.{parse_fee}
use gruut.Contract.Get.{parse_get}
use gruut.Contract.Input.{InputServices, parse_input}
use gruut.Contract.Set.{Contents, parse_set}
use gruut.Contract.DataManager.{
  Storage, DataAttribute, DataManager, update_value, set_key_currency_name,
}
use gruut.Contract.DataManager.Lookups.{
  get_world, get_chain, get_user_info, get_user_key_currency, get_scope_variables, no_attributes,
}
use gruut.Base.{Bytes}

-- What a run uses of other code, and the storage.
pub record Surroundings : Type 1 where
  pub services : Services
  pub sha256 : String → Bytes
  pub inputs : InputServices
  pub parse_xml : String → Option Element
  pub storage : Storage

-- The inputs of a transaction, as CBOR decodes them.
abbrev pub Inputs : Type 0
Inputs = List (List (List (String × String)))

pub record Authority : Type 0 where
  pub author : String
  pub user : String
  pub receiver : String
  pub self : String

-- A fee that is not set is none; a fee is its number.
pub record RunResult : Type 0 where
  pub txid : String
  pub status : Bool
  pub info : String
  pub authority : Authority
  pub fee : Option (ℤ × ℤ)
  pub queries : List (String × Contents)

abbrev pub no_queries : List (String × Contents) → Bool
no_queries [] = true
no_queries (q ∷ qs) = false

abbrev pub attr_to_map : List DataAttribute → String → DataManager → DataManager
attr_to_map [] prefix dm = dm
attr_to_map (a ∷ attrs) prefix dm =
    attr_to_map attrs prefix (update_value (prefix ++ "." ++ a.name) a.string_value dm)

module _ (sr : Surroundings) where
  abbrev pub evalue_all : List (Element × String) → RunState → RunState
  evalue_all nodes s = evalue_conditions sr.services sr.storage sr.sha256 nodes s

  -- false where one of the three has no attributes.
  unfoldable pub read_user_attributes : DataManager → Bool × DataManager
  read_user_attributes dm =
      let (user, dm1) = get_user_info sr.storage "$user" dm in
      let (receiver, dm2) = get_user_info sr.storage "$receiver" dm1 in
      let (author, dm3) = get_user_info sr.storage "$author" dm2 in
      if not (no_attributes user) && not (no_attributes receiver) && not (no_attributes author)
      then (
        true,
        attr_to_map author "$author"
            (attr_to_map receiver "$receiver" (attr_to_map user "$user" dm3)),
      )
      else (false, dm3)

  abbrev pub set_world_chain : List DataAttribute → List DataAttribute → DataManager → DataManager
  set_world_chain world chain dm =
      let dm' = attr_to_map chain "$chain" (attr_to_map world "$world" dm) in
      set_key_currency_name (eval dm'.tx_datamap "$world.keyc_name") dm'

  abbrev pub no_authority : Authority
  no_authority = record { author = ""; user = ""; receiver = ""; self = "" }

  abbrev pub authority_of : Datamap → Authority
  authority_of m = record {
    author = eval m "$author";
    user = eval m "$user";
    receiver = eval m "$receiver";
    self = eval m "$tx.body.cid";
  }

  abbrev pub failed : String → Authority → String → RunResult
  failed txid authority info = record {
    txid = txid;
    status = false;
    info = info;
    authority = authority;
    fee = none;
    queries = [];
  }

  -- Whether the contract may run now; with no head it may not.
  unfoldable pub in_run_period : ElementParser → Datamap → Bool
  in_run_period ep m = on_option ep.head false λ head. evalue_time sr.services.parse_time head m

  -- The conditions, the input, the conditions again, the get directives and the conditions once more;
  -- none where the input is not taken.
  unfoldable pub prepare : ElementParser → Inputs → RunState → Option RunState
  prepare ep inputs s =
      let (dm, c) = evalue_all ep.conditions s in
      on_option (parse_input sr.inputs inputs ep.input dm) none λ dm1.
        let (dm2, c2) = evalue_all ep.conditions (dm1, c) in
        some (evalue_all ep.conditions (parse_get sr.storage ep.gets c2 dm2, c2))

  -- Whether a payer has too little, and the data manager after the look-up, which takes place only if there
  -- is something to pay.
  abbrev pub lacks : String → ℤ → DataManager → Bool × DataManager
  lacks payer amount dm =
      let (balance, dm') = get_user_key_currency sr.storage payer dm in
      if ltb_ℤ (pos 0) amount then (ltb_ℤ balance amount, dm') else (false, dm)

  abbrev pub finished : String → Authority → ℤ × ℤ → List (String × Contents) → RunResult
  finished txid authority fee qs = record {
    txid = txid;
    status = not (no_queries qs);
    info = if no_queries qs then "invalid set directive or tag is not met" else "";
    authority = authority;
    fee = some fee;
    queries = qs;
  }

  -- The set directives, once the fee is settled.
  abbrev pub finish :
      ElementParser → String → Authority → ℤ × ℤ → RunState → Option RunResult × RunState
  finish ep txid authority fee (dm, c) =
      let (queries, dm') = parse_set sr.services sr.parse_xml sr.storage ep.sets c dm in
      (on_option queries none λ qs. some (finished txid authority fee qs), (dm', c))

  abbrev pub charge :
      ElementParser → String → Authority → ℤ × ℤ → RunState → Option RunResult × RunState
  charge ep txid authority (user, author) (dm, c) =
      let (user_lacks, dm1) = lacks "$user" user dm in
      let (author_lacks, dm2) = lacks "$author" author dm1 in
      if user_lacks
      then (some (failed txid authority "transaction fee shortage (user)"), (dm1, c))
      else if author_lacks
      then (some (failed txid authority "transaction fee shortage (author)"), (dm2, c))
      else finish ep txid authority (user, author) (dm2, c)

  -- none is an exception. The state of a failure before the charge is that of its stage; where the input is
  -- not taken, the conditions have been evaluated once.
  unfoldable pub run : ElementParser → Inputs → RunState → Option RunResult × RunState
  run ep inputs s =
      let txid = eval s.0.tx_datamap "$tx.txid" in
      let authority = authority_of s.0.tx_datamap in
      if in_run_period ep s.0.tx_datamap
      then (on_option (prepare ep inputs s)
          (some (failed txid authority "input is not met"), evalue_all ep.conditions s)
          λ p.
            on_option (parse_fee ep.fees p.1 p.0.tx_datamap)
              (some (failed txid authority "invalid set directive"), p)
              λ fee. charge ep txid authority fee p)
      else (some (failed txid no_authority "runnable time period is not met"), s)
