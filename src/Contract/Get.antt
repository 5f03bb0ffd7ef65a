-- ===== src/Contract/Get.antt =====
-- The get directives, which read variables in scope: src/contract/get_handler.cpp.
use Prim.Native.String.{◌++◌}
use gruut.Base.{String, not, ◌&&◌, ◌||◌, List, [], ◌∷◌, str_eq, if◌then◌else◌}
use gruut.Contract.Text.{empty}
use gruut.Contract.Datamap.{eval}
use gruut.Contract.Document.{Element, attribute}
use gruut.Contract.Condition.Manager.{ConditionManager}
use gruut.Contract.Xml.{parse_children_from_no_if}
use gruut.Contract.Fee.{is_active}
use gruut.Contract.DataManager.{Storage, DataAttribute, DataManager, update_value}
use gruut.Contract.DataManager.Lookups.{get_scope_variables, no_attributes}

-- Each value under the prefix and its name.
abbrev set_each : String → List DataAttribute → DataManager → DataManager
set_each prefix [] dm = dm
set_each prefix (a ∷ rest) dm =
    set_each prefix rest (update_value (prefix ++ a.name) a.string_value dm)

-- A single value has the name itself.
abbrev set_as : String → List DataAttribute → DataManager → DataManager
set_as name_as (a ∷ []) dm = update_value ("$." ++ name_as) a.string_value dm
set_as name_as values dm = set_each ("$." ++ name_as ++ ".") values dm

abbrev storage_id : String → String → DataManager → String
storage_id scope id dm =
    if str_eq scope "author"
    then eval dm.tx_datamap "$author"
    else if empty id
    then if str_eq scope "user"
      then eval dm.tx_datamap "$user"
      else eval dm.tx_datamap "$tx.body.cid"
    else id

-- The names under which the values of a scope are set.
abbrev set_values :
    String → String → String → String → String → List DataAttribute → DataManager → DataManager
set_values scope id sid id_as name_as values dm =
    let own = set_each ("$" ++ scope ++ ".") values dm in
    let dm1 = if empty id || str_eq id sid then own else dm in
    let dm2 =
      if not (empty id) && not (str_eq id sid) && not (empty id_as)
      then set_each ("$." ++ id_as ++ ".") values dm1
      else dm1 in
    if empty name_as then dm2 else set_as name_as values dm2

unfoldable pub get_var : Storage → Element → DataManager → DataManager
get_var st var_node dm =
    let scope = attribute var_node "scope" in
    let id = eval dm.tx_datamap (attribute var_node "id") in
    let name = eval dm.tx_datamap (attribute var_node "name") in
    let sid = storage_id scope id dm in
    let storage_scope =
      if str_eq scope "author" || str_eq scope "user" then "user" else "contract" in
    let (values, dm') = get_scope_variables st storage_scope sid name dm in
    if not (str_eq scope "author" || str_eq scope "user" || str_eq scope "contract") || empty name
    then dm
    else if no_attributes values
    then dm'
    else set_values scope id sid (attribute var_node "id-as") (attribute var_node "as") values dm'

abbrev get_vars : Storage → List Element → DataManager → DataManager
get_vars st [] dm = dm
get_vars st (v ∷ vs) dm = get_vars st vs (get_var st v dm)

unfoldable pub parse_get :
    Storage → List (Element × String) → ConditionManager → DataManager → DataManager
parse_get st [] c dm = dm
parse_get st ((get_node, condition_id) ∷ nodes) c dm =
    let got = parse_get st nodes c (get_vars st (parse_children_from_no_if get_node "var") dm) in
    let skipped = parse_get st nodes c dm in if is_active c condition_id then got else skipped
