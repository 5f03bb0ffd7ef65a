-- ===== src/Contract/DataManager/Lookups.antt =====
-- What the runner and the handlers ask the data manager for.
use Prim.Native.String.{◌++◌}
use gruut.Base.{
  ℕ, suc, ◌^◌, ◌%◌, ◌==◌, ◌-◌, String, Bool, true, false, not, ◌&&◌, ◌||◌, Option, none, some, List,
  [], ◌∷◌, ltb, str_eq, if◌then◌else◌, Assoc, on_option, at, insert_or_assign,
}
use gruut.Base.Int.{ℤ, pos, negsuc}
use gruut.Contract.Text.{empty, str2num_u64, str2num_int}
use gruut.Contract.Condition.Endorser.{to_string}
use gruut.Contract.Datamap.{eval}
use gruut.Contract.DataManager.{
  Query, Storage, DataAttribute, UserScopeRecord, DataManager, query_and_cache, rows, column,
  attributes, all_attributes, ContractScopeRecord, UserAttributeRecord, scope_rows,
  query_user_scope, query_contract_scope,
}

abbrev get_all : Storage → String → DataManager → List DataAttribute × DataManager
get_all st type dm =
    let (result, dm') = query_and_cache st (record { type = type; where_ = [] }) dm in
    (all_attributes (rows result), dm')

abbrev pub get_world : Storage → DataManager → List DataAttribute × DataManager
get_world st dm = get_all st "world.get" dm

abbrev pub get_chain : Storage → DataManager → List DataAttribute × DataManager
get_chain st dm = get_all st "chain.get" dm

-- INPUT_OPTION_TYPE_MAP in the order of its keys, with the numbers of EnumAll.
abbrev pub input_option_type_map : List (String × ℕ)
input_option_type_map =
    ("BASE58", 34)
    ∷ ("BASE64", 35)
    ∷ ("BIN", 31)
    ∷ ("BOOL", 54)
    ∷ ("COIN", 2)
    ∷ ("CONTRACT", 22)
    ∷ ("DATE", 72)
    ∷ ("DATETIME", 71)
    ∷ ("DEC", 32)
    ∷ ("ENUMALL", 12)
    ∷ ("ENUMGENDER", 11)
    ∷ ("ENUMV", 10)
    ∷ ("FEMALE", 90)
    ∷ ("FIAT", 1)
    ∷ ("FLOAT", 53)
    ∷ ("HEX", 33)
    ∷ ("INT", 50)
    ∷ ("KEYC", 0)
    ∷ ("MALE", 90)
    ∷ ("MEDIUMTEXT", 63)
    ∷ ("MILE", 4)
    ∷ ("NINT", 52)
    ∷ ("OTHER", 92)
    ∷ ("PEM", 21)
    ∷ ("PINT", 51)
    ∷ ("TEXT", 61)
    ∷ ("TINYTEXT", 60)
    ∷ ("XCOIN", 3)
    ∷ ("XML", 23)
    ∷ []

abbrev key_of : List (String × ℕ) → ℕ → String
key_of [] code = ""
key_of ((k, v) ∷ m) code = let rest = key_of m code in if v == code then k else rest

-- getEnumString: the first key with the number
unfoldable pub get_enum_string : ℕ → String
get_enum_string code = key_of input_option_type_map code

abbrev pub int_text : ℤ → String
int_text (pos n) = to_string n
int_text (negsuc n) = "-" ++ to_string (suc n)

-- What getUserInfo returns for a user whose record is kept.
abbrev pub kept_attributes : UserAttributeRecord → List DataAttribute
kept_attributes r =
    attributes
      (("register_day", r.register_day)
        ∷ ("register_code", r.register_code)
        ∷ ("gender", get_enum_string r.gender)
        ∷ ("isc_type", r.isc_type)
        ∷ ("isc_code", r.isc_code)
        ∷ ("location", r.location)
        ∷ ("age_limit", int_text r.age_limit)
        ∷ [])
      []

-- The record of a row; a column that is missing is read as "".
abbrev pub user_attribute_record : List (String × String) → UserAttributeRecord
user_attribute_record row = record {
  register_day = column "register_day" row;
  register_code = column "register_code" row;
  gender = str2num_u64 (column "gender" row) % 256;
  isc_type = column "isc_type" row;
  isc_code = column "isc_code" row;
  location = column "location" row;
  age_limit = str2num_int (column "age_limit" row);
}

-- queryIfUserAttrAndParseData: the attributes of the first row, whose record is kept for the user.
abbrev pub parse_user_attr :
    String → List (List (String × String)) → DataManager → List DataAttribute × DataManager
parse_user_attr user_id [] dm = ([], dm)
parse_user_attr user_id (row ∷ rs) dm = (
  attributes row [],
  record dm {
    user_attr_table = insert_or_assign user_id (user_attribute_record row) dm.user_attr_table;
  },
)

unfoldable pub get_user_info : Storage → String → DataManager → List DataAttribute × DataManager
get_user_info st user_id_ dm =
    let user_id = eval dm.tx_datamap user_id_ in
    let (result, dm') =
      query_and_cache st (record { type = "user.info.get"; where_ = ("uid", user_id) ∷ [] }) dm in
    if empty user_id_
    then ([], dm)
    else on_option (at user_id dm.user_attr_table) (parse_user_attr user_id (rows result) dm')
        λ r. (kept_attributes r, dm)

-- The amount in the first untagged row of the key currency.
abbrev cached_amount : String → List UserScopeRecord → ℕ
cached_amount keyc_name [] = 0
cached_amount keyc_name (r ∷ rs) =
    let rest = cached_amount keyc_name rs in
    if empty r.tag && str_eq r.var_type "KEYC" && str_eq r.var_name keyc_name
    then str2num_u64 r.var_value
    else rest

abbrev amount_of : String → ℕ → List DataAttribute → ℕ
amount_of keyc_name amount [] = amount
amount_of keyc_name amount (a ∷ as_) =
    if str_eq a.name keyc_name then str2num_u64 a.string_value else amount

-- The `int64_t` of the same bits.
abbrev pub to_int64 : ℕ → ℤ
to_int64 n = if ltb n (2 ^ 63) then pos n else negsuc (2 ^ 64 - n - 1)

-- The storage is asked whether the table has an amount or not.
unfoldable pub get_user_key_currency : Storage → String → DataManager → ℤ × DataManager
get_user_key_currency st user_id_ dm =
    let user_id = eval dm.tx_datamap user_id_ in
    let cached =
      cached_amount dm.keyc_name (scope_rows (user_id ++ dm.keyc_name) dm.user_scope_table) in
    let (result, dm') =
      query_user_scope st
        (record {
          type = "user.scope.get";
          where_ =
              ("uid", user_id) ∷ ("name", dm.keyc_name) ∷ ("type", "KEYC") ∷ ("notag", "true") ∷ [];
        })
        user_id dm in
    if empty user_id_ then (pos 0, dm) else (to_int64 (amount_of dm.keyc_name cached result), dm')

abbrev untagged_value : String → List UserScopeRecord → List DataAttribute
untagged_value name [] = []
untagged_value name (r ∷ rs) =
    let rest = untagged_value name rs in
    if empty r.tag then record { name = name; string_value = r.var_value } ∷ [] else rest

abbrev owned : String → List UserScopeRecord → List DataAttribute → List DataAttribute
owned id [] out = out
owned id (r ∷ rs) out =
    let rest = owned id rs out in
    if str_eq r.var_owner id && empty r.tag
    then record { name = r.var_name; string_value = r.var_value } ∷ rest
    else rest

abbrev owned_all : String → Assoc (List UserScopeRecord) → List DataAttribute
owned_all id [] = []
owned_all id ((k, rs) ∷ table) = owned id rs (owned_all id table)

abbrev of_contract : String → Option ContractScopeRecord → List DataAttribute
of_contract name none = []
of_contract name (some r) = record { name = name; string_value = r.var_value } ∷ []

abbrev contract_all : String → Assoc ContractScopeRecord → List DataAttribute
contract_all id [] = []
contract_all id ((k, r) ∷ table) =
    let rest = contract_all id table in
    if str_eq r.contract_id id
    then record { name = r.var_name; string_value = r.var_value } ∷ rest
    else rest

-- What the tables have for the name, or for all names.
unfoldable pub cached_variables : String → String → String → DataManager → List DataAttribute
cached_variables scope id name dm =
    if str_eq name "*"
    then if str_eq scope "user"
      then owned_all id dm.user_scope_table
      else contract_all id dm.contract_scope_table
    else if str_eq scope "user"
    then untagged_value name (scope_rows (id ++ name) dm.user_scope_table)
    else of_contract name (at (id ++ name) dm.contract_scope_table)

abbrev scope_where : String → String → List (String × String)
scope_where id name =
    if str_eq name "*"
    then ("uid", id) ∷ ("notag", "true") ∷ []
    else ("uid", id) ∷ ("notag", "true") ∷ ("name", name) ∷ []

abbrev pub no_attributes : List DataAttribute → Bool
no_attributes [] = true
no_attributes (a ∷ out) = false

abbrev pub no_scope : String → String → String → Bool
no_scope scope id name =
    empty id || empty name || not (str_eq scope "user" || str_eq scope "contract")

abbrev pub scope_query : String → String → String → Query
scope_query type id name = record { type = type; where_ = scope_where id name }

abbrev pub query_scope :
    Storage → String → String → String → DataManager → List DataAttribute × DataManager
query_scope st scope id name dm =
    if str_eq scope "user"
    then query_user_scope st (scope_query "user.scope.get" id name) id dm
    else query_contract_scope st (scope_query "contract.scope.get" id name) id dm

abbrev pub known_or_query :
    Storage → String → String → String → DataManager → List DataAttribute × DataManager
known_or_query st scope id name dm =
    let cached = cached_variables scope id name dm in
    if no_attributes cached then query_scope st scope id name dm else (cached, dm)

unfoldable pub get_scope_variables :
    Storage → String → String → String → DataManager → List DataAttribute × DataManager
get_scope_variables st scope id name dm =
    if no_scope scope id name then ([], dm) else known_or_query st scope id name dm
