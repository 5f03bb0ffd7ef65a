-- ===== src/Contract/Condition/Manager.antt =====
-- The results of conditions that are kept by id: src/contract/condition_manager.cpp and its header.
pub mod Fresh
pub mod Stale
use Prim.Native.String.{◌++◌, slice, len}
use gruut.Base.{
  Bytes, bytes_eq, ℕ, String, Bool, true, false, not, ◌&&◌, Option, none, some, List, [], ◌∷◌,
  str_eq, ◌==◌, if◌then◌else◌,
}
use gruut.Contract.Text.{empty, is_variable}
use gruut.Contract.Datamap.{Datamap, get, value_or}
use gruut.Contract.Document.{Element, element, Elements, no_more, child, lookup, attribute}
use gruut.Contract.Condition.Services.{Services}
use gruut.Contract.Condition.Handler.{evalue}

pub record ConditionManager : Type 0 where
  pub result_cache : List (String × (Bool × Bytes))
  pub keyword_map : List (String × List String)

abbrev pub new_manager : ConditionManager
new_manager = record { result_cache = []; keyword_map = [] }

unfoldable pub find {ℓ} : {A : Type ℓ} → List (String × A) → String → Option A
find [] key = none
find ((k, v) ∷ m) key = if str_eq k key then some v else find m key

-- std::map::insert leaves a key that is there as it is.
abbrev pub insert_new {ℓ} : {A : Type ℓ} → String → A → List (String × A) → List (String × A)
insert_new key v m = elim (find m key) [ none ↦ (key, v) ∷ m | some _ ↦ m ]

-- checkAndPush
abbrev check_and_push : List (String × String) → String → List String → List String
check_and_push attrs key kws =
    let value = lookup attrs key in if is_variable value then value ∷ kws else kws

-- The attributes of one element, in front of the keywords of what follows.
abbrev pub own_keywords : String → List (String × String) → List String → List String
own_keywords tag attrs kws =
    if str_eq tag "compare"
    then check_and_push attrs "src" (check_and_push attrs "ref" kws)
    else if str_eq tag "age"
    then check_and_push attrs "after" (check_and_push attrs "before" kws)
    else if str_eq tag "var"
    then check_and_push attrs "id" (check_and_push attrs "name" kws)
    else check_and_push attrs "value" kws

-- keyword_search, with the keywords that come after the element
unfoldable mutual
  pub keyword_search : Element → List String → List String
  keyword_search (element n attrs t cs) kws = own_keywords n attrs (keyword_search_all cs kws)

  pub keyword_search_all : Elements → List String → List String
  keyword_search_all no_more kws = kws
  keyword_search_all (child e es) kws = keyword_search e (keyword_search_all es kws)

unfoldable pub kv_string : List String → Datamap → String
kv_string [] m = ""
kv_string (k ∷ kws) m = value_or "" (get m k) ++ kv_string kws m

-- The services of the handlers, and Sha256::hash.
module _ (s : Services) (sha256 : String → Bytes) where
  abbrev pub get_hash_kv : List String → Datamap → Bytes
  get_hash_kv kws m = sha256 (kv_string kws m)

  -- The keywords that are known for the id, or else those that the element has.
  abbrev pub keywords_of : String → Element → ConditionManager → List String
  keywords_of id e c = elim (find c.keyword_map id) [ none ↦ keyword_search e [] | some kws ↦ kws ]

  abbrev pub note_keywords : String → Element → ConditionManager → ConditionManager
  note_keywords id e c = record c {
    keyword_map = insert_new id (keyword_search e []) c.keyword_map;
  }

  abbrev pub note_result : String → Bool → Bytes → ConditionManager → ConditionManager
  note_result id r h c = record c { result_cache = insert_new id (r, h) c.result_cache }

  unfoldable pub look_up :
      String → Element → Datamap → Bytes → ConditionManager → Bool × ConditionManager
  look_up id e m h c = elim (find c.result_cache id) [
    | none ↦ (evalue s m e, note_result id (evalue s m e) h c)
    | some (r, h') ↦
        if bytes_eq h h' then (r, c) else (evalue s m e, note_result id (evalue s m e) h c)
  ]

  unfoldable pub evalue_cached : Element → Datamap → ConditionManager → Bool × ConditionManager
  evalue_cached e m c =
      let id = attribute e "id" in
      if empty id
      then (true, c)
      else look_up id e m (get_hash_kv (keywords_of id e c) m) (note_keywords id e c)

  -- The answers to a sequence of calls.
  unfoldable pub answers : List (Element × Datamap) → ConditionManager → List Bool
  answers [] c = []
  answers ((e, m) ∷ calls) c = let (r, c') = evalue_cached e m c in r ∷ answers calls c'

-- getEvalResultById: the kept result of an id, or its negation for an id with '~' in front.
abbrev kept : Bool → Option (Bool × Bytes) → Bool
kept neg none = true
kept neg (some (r, h)) = if neg then not r else r

abbrev kept_at : Bool → String → ConditionManager → Bool
kept_at neg id c = if empty id then true else kept neg (find c.result_cache id)

unfoldable pub get_eval_result_by_id : String → ConditionManager → Bool
get_eval_result_by_id id c =
    if empty id
    then true
    else if str_eq (slice id 0 1) "~"
    then kept_at true (slice id 1 (len id)) c
    else kept_at false id c
