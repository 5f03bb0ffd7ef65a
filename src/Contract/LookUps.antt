-- ===== src/Contract/LookUps.antt =====
-- The conditions of a run, which look variables up and so fill the caches of the data manager: the handlers
-- of src/contract/condition_handler.cpp, val_handler.cpp and condition_manager.cpp with the state that
-- they pass on.
pub mod Pure
use gruut.Base.{
  Bytes, bytes_eq, String, Bool, true, false, ◌&&◌, ◌||◌, Option, none, some, List, [], ◌∷◌, str_eq,
  if◌then◌else◌,
}
use gruut.Contract.Text.{empty, trim}
use gruut.Contract.Datamap.{eval}
use gruut.Contract.Document.{Element, element, Elements, no_more, child, lookup, attribute}
use gruut.Contract.Condition.{or_rule, Primary, get_eval_rule, rule_or, get_primary_condition_type}
use gruut.Contract.Condition.Services.{Services}
use gruut.Contract.Condition.Endorser.{by_rule}
use gruut.Contract.Condition.Var.{real_scope, in_storage}
use gruut.Contract.Condition.Handler.{leaf, verdict}
use gruut.Contract.Condition.Manager.{
  ConditionManager, find, get_hash_kv, keywords_of, note_keywords, note_result,
}
use gruut.Contract.DataManager.{Storage, DataAttribute, DataManager}
use gruut.Contract.DataManager.Lookups.{get_scope_variables}

-- What a run changes.
abbrev pub RunState : Type 0
RunState = DataManager × ConditionManager

abbrev pub first_value : List DataAttribute → Option String
first_value [] = none
first_value (a ∷ rest) = some a.string_value

-- The conditions that hold others.
abbrev pub is_group : Primary → Bool
is_group Primary.root = true
is_group Primary.if_all = true
is_group Primary.nif = true
is_group _ = false

module _ (sv : Services) (st : Storage) where
  -- The services with the variables in scope that this data manager gives.
  abbrev pub services_for : DataManager → Services
  services_for dm = record sv {
    scope_variable = λ scope id name. first_value (get_scope_variables st scope id name dm).0;
  }

  -- The data manager after the look-up of a variable.
  abbrev pub after_var : Element → DataManager → DataManager
  after_var e dm =
      let name = trim (attribute e "name") in
      let scope = attribute e "scope" in
      let id = eval dm.tx_datamap (attribute e "id") in
      if str_eq name "*"
      then dm
      else if in_storage scope
      then (get_scope_variables st (real_scope scope) id name dm).1
      else dm

  abbrev pub after_leaf : Primary → Element → DataManager → DataManager
  after_leaf Primary.var e dm = after_var e dm
  after_leaf _ e dm = dm

  -- Every condition of a group is evaluated, in order: whether each of them is met, and whether one is.
  unfoldable mutual
    pub evalue_in : Element → DataManager → Bool × DataManager
    evalue_in (element n attrs t cs) dm =
        let p = get_primary_condition_type n in
        let e = element n attrs t cs in
        let (each, one, dm') = group_in cs dm in
        if is_group p
        then (
          verdict p (by_rule (rule_or or_rule (get_eval_rule (lookup attrs "eval-rule"))) each one)
              true,
          dm',
        )
        else (leaf (services_for dm) p dm.tx_datamap e, after_leaf p e dm)

    pub group_in : Elements → DataManager → Bool × Bool × DataManager
    group_in no_more dm = (true, false, dm)
    group_in (child e es) dm =
        let (met, dm1) = evalue_in e dm in
        let (each, one, dm2) = group_in es dm1 in (met && each, met || one, dm2)

  module _ (sha256 : String → Bytes) where
    -- The condition is evaluated, and its result noted where it has none.
    abbrev evalue_anew : String → Element → Bytes → RunState → Bool × RunState
    evalue_anew id e h (dm, c) =
        let (r, dm') = evalue_in e dm in (r, (dm', note_result sv sha256 id r h c))

    unfoldable pub look_up_in : String → Element → Bytes → RunState → Bool × RunState
    look_up_in id e h (dm, c) = elim (find c.result_cache id) [
      | none ↦ evalue_anew id e h (dm, c)
      | some (r, h') ↦ if bytes_eq h h' then (r, (dm, c)) else evalue_anew id e h (dm, c)
    ]

    -- ConditionManager::evalue on the state of a run
    unfoldable pub evalue_cached_in : Element → RunState → Bool × RunState
    evalue_cached_in e (dm, c) =
        let id = attribute e "id" in
        if empty id
        then (true, (dm, c))
        else look_up_in id e (get_hash_kv sv sha256 (keywords_of sv sha256 id e c) dm.tx_datamap)
            (dm, note_keywords sv sha256 id e c)

    -- The loop over the conditions of a contract.
    abbrev pub evalue_conditions : List (Element × String) → RunState → RunState
    evalue_conditions [] s = s
    evalue_conditions ((e, if_id) ∷ nodes) s = evalue_conditions nodes (evalue_cached_in e s).1
