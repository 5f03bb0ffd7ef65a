-- ===== src/Contract/DataManager.antt =====
-- The data of a contract's run, and the caches in front of the storage: src/contract/data_manager.cpp
-- and src/contract/include/data_manager.hpp.
pub mod Cached
pub mod Rows
pub mod Lookups
use Prim.Native.String.{◌++◌}
use gruut.Base.{
  ℕ, String, Bool, true, false, not, ◌&&◌, Option, none, some, List, [], ◌∷◌, str_eq, if◌then◌else◌,
  on_option, Assoc, at, insert_or_assign, any,
}
use gruut.Base.Int.{ℤ}
use gruut.Contract.Text.{empty, str2num_u64}
use gruut.Contract.Datamap.{Datamap, set, eval}

-- "type" and "where" of a query. The value true is the text "true".
pub record Query : Type 0 where
  pub type : String
  pub where_ : List (String × String)

-- "name" and "data" of a result: each row has a text for each name.
pub record QueryResult : Type 0 where
  pub name : List String
  pub data_ : List (List String)

-- The storage at one time; it answers nothing where "name" or "data" is missing. The key of a query is its
-- CBOR as a text.
pub record Storage : Type 0 where
  pub read : Query → Option QueryResult
  pub key : Query → String

pub record DataAttribute : Type 0 where
  pub name : String
  pub string_value : String

-- A type of a variable is kept by its name.
pub record UserScopeRecord : Type 0 where
  pub var_name : String
  pub var_value : String
  pub var_type : String
  pub var_owner : String
  pub tag : String
  pub pid : String

pub record ContractScopeRecord : Type 0 where
  pub contract_id : String
  pub var_name : String
  pub var_value : String

pub record UserAttributeRecord : Type 0 where
  pub register_day : String
  pub register_code : String
  -- the number of an EnumGender
  pub gender : ℕ
  pub isc_type : String
  pub isc_code : String
  pub location : String
  pub age_limit : ℤ

pub record DataManager : Type 0 where
  pub tx_datamap : Datamap
  pub keyc_name : String
  pub query_cache : Assoc (Option QueryResult)
  pub user_scope_table : Assoc (List UserScopeRecord)
  pub contract_scope_table : Assoc ContractScopeRecord
  pub user_attr_table : Assoc UserAttributeRecord

abbrev pub new_data_manager : DataManager
new_data_manager = record {
  tx_datamap = [];
  keyc_name = "KEYC";
  query_cache = [];
  user_scope_table = [];
  contract_scope_table = [];
  user_attr_table = [];
}

abbrev pub update_value : String → String → DataManager → DataManager
update_value key vv dm = record dm { tx_datamap = set key vv dm.tx_datamap }

abbrev pub set_key_currency_name : String → DataManager → DataManager
set_key_currency_name keyc_name dm = record dm { keyc_name = keyc_name }

-- The results of queries and the attributes of users stay.
unfoldable pub clear : DataManager → DataManager
clear dm = record dm { user_scope_table = []; contract_scope_table = []; tx_datamap = [] }

unfoldable pub query_and_cache : Storage → Query → DataManager → Option QueryResult × DataManager
query_and_cache st query dm = elim (at (st.key query) dm.query_cache) [
  | some result ↦ (result, dm)
  | none ↦ (
    st.read query,
    record dm { query_cache = insert_or_assign (st.key query) (st.read query) dm.query_cache },
  )
]

abbrev zip : List String → List String → List (String × String)
zip [] vs = []
zip (n ∷ ns) [] = []
zip (n ∷ ns) (v ∷ vs) = (n, v) ∷ zip ns vs

-- The rows of a result, each as names with their values; none if there are no names.
abbrev pub rows : Option QueryResult → List (List (String × String))
rows none = []
rows (some r) = each r.name r.data_
  where
    each : List String → List (List String) → List (List (String × String))
    each names [] = []
    each [] (row ∷ data_) = []
    each (n ∷ names) (row ∷ data_) = zip (n ∷ names) row ∷ each (n ∷ names) data_

-- The column of that name, the last if there are more, or "".
abbrev pub column : String → List (String × String) → String
column name [] = ""
column name ((n, v) ∷ row) =
    let rest = column name row in
    if str_eq n name && not (any (λ (c : String × String). str_eq c.0 name) row) then v else rest

-- The attributes of a row, in front of others.
abbrev pub attributes : List (String × String) → List DataAttribute → List DataAttribute
attributes [] out = out
attributes ((n, v) ∷ row) out = record { name = n; string_value = v } ∷ attributes row out

-- queryIfAndParseData: the attributes of all rows. A Boolean column is its text.
abbrev pub all_attributes : List (List (String × String)) → List DataAttribute
all_attributes [] = []
all_attributes (row ∷ rs) = attributes row (all_attributes rs)

-- A row of user scope: the owner is the user that was asked for, if the row names none.
abbrev pub user_scope_record : String → List (String × String) → UserScopeRecord
user_scope_record user_id row =
    let owner = column "var_owner" row in
    record {
      var_name = column "var_name" row;
      var_value = column "var_value" row;
      var_type = column "var_type" row;
      var_owner = if empty owner then user_id else owner;
      tag = column "tag" row;
      pid = column "pid" row;
    }

-- The value of the first record with the pid is replaced; if there is none, the record is added.
unfoldable pub update_records : UserScopeRecord → List UserScopeRecord → List UserScopeRecord
update_records r [] = r ∷ []
update_records r (s ∷ ss) =
    let rest = update_records r ss in
    if str_eq s.pid r.pid then record s { var_value = r.var_value } ∷ ss else s ∷ rest

abbrev pub or_empty : Option (List UserScopeRecord) → List UserScopeRecord
or_empty none = []
or_empty (some rs) = rs

abbrev pub scope_rows : String → Assoc (List UserScopeRecord) → List UserScopeRecord
scope_rows key table = or_empty (at key table)

abbrev pub store_record : String → UserScopeRecord → DataManager → DataManager
store_record user_id r dm =
    let scope_key = user_id ++ r.var_name in
    record dm {
      user_scope_table =
          insert_or_assign scope_key (update_records r (scope_rows scope_key dm.user_scope_table))
            dm.user_scope_table;
    }

-- The loop of queryIfUserScopeAndParseData with its default pid "": what it returns and stores.
unfoldable pub parse_user_scope :
    String → List (List (String × String)) → DataManager → List DataAttribute × DataManager
parse_user_scope user_id [] dm = ([], dm)
parse_user_scope user_id (row ∷ rs) dm =
    let r = user_scope_record user_id row in
    let skipped = parse_user_scope user_id rs dm in
    let (out, dm') = parse_user_scope user_id rs (store_record user_id r dm) in
    if empty r.var_name
    then skipped
    else if empty r.tag
    then (record { name = r.var_name; string_value = r.var_value } ∷ out, dm')
    else (out, dm')

unfoldable pub query_user_scope :
    Storage → Query → String → DataManager → List DataAttribute × DataManager
query_user_scope st query user_id dm =
    let (result, dm') = query_and_cache st query dm in parse_user_scope user_id (rows result) dm'

-- A row of contract scope: the contract is the one that was asked for, if the row names none.
abbrev pub contract_scope_record : String → List (String × String) → ContractScopeRecord
contract_scope_record cid row =
    let named = column "contract_id" row in
    record {
      contract_id = if empty named then cid else named;
      var_name = column "var_name" row;
      var_value = column "var_value" row;
    }

abbrev pub store_contract : String → ContractScopeRecord → DataManager → DataManager
store_contract cid r dm = record dm {
  contract_scope_table = insert_or_assign (cid ++ r.var_name) r dm.contract_scope_table;
}

unfoldable pub parse_contract_scope :
    String → List (List (String × String)) → DataManager → List DataAttribute × DataManager
parse_contract_scope cid [] dm = ([], dm)
parse_contract_scope cid (row ∷ rs) dm =
    let r = contract_scope_record cid row in
    let skipped = parse_contract_scope cid rs dm in
    let (out, dm') = parse_contract_scope cid rs (store_contract cid r dm) in
    if empty r.var_name
    then skipped
    else (record { name = r.var_name; string_value = r.var_value } ∷ out, dm')

unfoldable pub query_contract_scope :
    Storage → Query → String → DataManager → List DataAttribute × DataManager
query_contract_scope st query cid dm =
    let (result, dm') = query_and_cache st query dm in parse_contract_scope cid (rows result) dm'

-- The loop of findUserScopeTableByName, with the record so far and whether it has no tag.
abbrev pub find_named :
    String → List UserScopeRecord → Bool → Option UserScopeRecord → Option UserScopeRecord
find_named var_name [] null_tag found = found
find_named var_name (r ∷ rs) null_tag found =
    let untagged = find_named var_name rs true (some r) in
    let tagged = find_named var_name rs null_tag (if null_tag then found else some r) in
    let other = find_named var_name rs null_tag found in
    if str_eq r.var_name var_name then if empty r.tag then untagged else tagged else other

unfoldable pub find_user_scope_table_by_name :
    String → String → DataManager → Option UserScopeRecord
find_user_scope_table_by_name user_id var_name dm =
    find_named var_name (scope_rows (user_id ++ var_name) dm.user_scope_table) false none

abbrev pub find_pid : String → List UserScopeRecord → Option UserScopeRecord
find_pid pid [] = none
find_pid pid (r ∷ rs) = let rest = find_pid pid rs in if str_eq r.pid pid then some r else rest

unfoldable pub find_user_scope_table_by_pid :
    String → String → String → DataManager → Option UserScopeRecord
find_user_scope_table_by_pid user_id var_name pid dm =
    find_pid pid (scope_rows (user_id ++ var_name) dm.user_scope_table)

unfoldable pub get_user_scope_record_by_name :
    Storage → String → String → DataManager → Option UserScopeRecord × DataManager
get_user_scope_record_by_name st user_id var_name dm =
    if str_eq var_name "*"
    then (none, dm)
    else (let (_, dm') =
          query_user_scope st
            (record {
              type = "user.scope.get";
              where_ = ("uid", user_id) ∷ ("name", var_name) ∷ [];
            })
            user_id dm in
        on_option (find_user_scope_table_by_name user_id var_name dm)
          (find_user_scope_table_by_name user_id var_name dm', dm') λ r. (some r, dm))

unfoldable pub get_user_scope_record_by_pid :
    Storage → String → String → String → DataManager → Option UserScopeRecord × DataManager
get_user_scope_record_by_pid st user_id var_name pid dm =
    let (_, dm') =
      query_user_scope st
        (record { type = "user.scope.get"; where_ = ("uid", user_id) ∷ ("pid", pid) ∷ [] }) user_id
        dm in
    on_option (find_user_scope_table_by_pid user_id var_name pid dm)
      (find_user_scope_table_by_pid user_id var_name pid dm', dm') λ r. (some r, dm)
