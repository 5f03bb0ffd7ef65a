-- ===== src/Contract/Set.antt =====
-- The set directives, which make the queries of a contract: src/contract/set_handler.cpp, with
-- src/contract/tag_handler.cpp.
use Prim.Native.String.{◌++◌}
use gruut.Base.{
  String, Bool, true, false, not, ◌&&◌, ◌||◌, Option, none, some, List, [], ◌∷◌, str_eq,
  if◌then◌else◌, on_option, Assoc, at, insert_or_assign,
}
use gruut.Base.Int.{pos}
use gruut.Contract.Text.{empty, trim, to_lower, to_upper, str2num_int}
use gruut.Contract.Datamap.{Datamap, eval, value_or}
use gruut.Contract.Document.{Element, attribute, first_child}
use gruut.Contract.Condition.Services.{Services}
use gruut.Contract.Condition.Compare.{ltb_ℤ}
use gruut.Contract.Condition.Handler.{evalue}
use gruut.Contract.Condition.Manager.{ConditionManager}
use gruut.Contract.Patterns.{is_digit, is_base64, has_part}
use gruut.Contract.Xml.{parse_children_from_no_if}
use gruut.Contract.Fee.{is_active}
use gruut.Contract.DataManager.{Storage, UserScopeRecord, DataManager, get_user_scope_record_by_pid}

pub data SetType : Type 0 where
  user_join user_cert v_create v_incinerate v_transfer scope_user scope_contract contract_new
        contract_disable trade_item trade_v run_query run_contract no_type :
      SetType

-- SET_TYPE_MAP: of the two entries for "user.cert" the map keeps the first.
unfoldable pub set_type_of : String → SetType
set_type_of s =
    if str_eq s "user.cert"
    then user_join
    else if str_eq s "v.create"
    then v_create
    else if str_eq s "v.incinerate"
    then v_incinerate
    else if str_eq s "v.transfer"
    then v_transfer
    else if str_eq s "scope.user"
    then scope_user
    else if str_eq s "scope.contract"
    then scope_contract
    else if str_eq s "contract.new"
    then contract_new
    else if str_eq s "contract.disable"
    then contract_disable
    else if str_eq s "trade.item"
    then trade_item
    else if str_eq s "trade.v"
    then trade_v
    else if str_eq s "run.query"
    then run_query
    else if str_eq s "run.contract"
    then run_contract
    else no_type

abbrev pub Contents : Type 0
Contents = Assoc String

abbrev keep_if : Bool → String → String
keep_if b s = if b then s else ""

abbrev is_positive : String → Bool
is_positive s = ltb_ℤ (pos 0) (str2num_int s)

-- A value without one of the marks is cleared, and substr then throws.
abbrev x509 : String → Option String
x509 s =
    if has_part "-----BEGIN CERTIFICATE-----" s && has_part "-----END CERTIFICATE-----" s
    then some (keep_if (is_base64 s) s)
    else none

-- What the switch leaves of the value of an option, "" if it is cleared, none if it throws.
unfoldable pub check_option : SetType → String → String → Option String
check_option user_join name s =
    if str_eq name "gender"
    then some (
        keep_if
          (str_eq (to_upper s) "MALE"
            || str_eq (to_upper s) "FEMALE"
            || str_eq (to_upper s) "OTHER")
          (to_upper s))
    else if str_eq name "register_day"
    then some (keep_if (is_digit s) s)
    else some s
check_option user_cert name s =
    if str_eq name "notbefore" || str_eq name "notafter"
    then some (keep_if (is_digit s) s)
    else if str_eq name "x509"
    then x509 s
    else some s
check_option v_create name s =
    if str_eq name "amount"
    then some (keep_if (is_positive s) s)
    else if str_eq name "type"
    then (let t = to_upper s in
        some (
          keep_if
            (str_eq t "KEYC"
              || str_eq t "FIAT"
              || str_eq t "COIN"
              || str_eq t "XCOIN"
              || str_eq t "MILE")
            t))
    else some s
check_option v_incinerate name s = some (if str_eq name "pid" then keep_if (is_base64 s) s else s)
check_option scope_contract name s = some (if str_eq name "pid" then keep_if (is_base64 s) s else s)
check_option contract_new name s =
    some (if str_eq name "before" || str_eq name "after" then keep_if (is_digit s) s else s)
check_option v_transfer name s =
    some (if str_eq name "amount" then keep_if (is_positive s) s else s)
check_option run_query name s = some (
    if str_eq name "type"
    then keep_if (str_eq s "run.query" || str_eq s "user.cert") s
    else if str_eq name "after"
    then keep_if (is_digit s) s
    else s)
check_option run_contract name s = some (if str_eq name "after" then keep_if (is_digit s) s else s)
check_option scope_user name s = some s
check_option contract_disable name s = some s
check_option trade_item name s = some s
check_option trade_v name s = some s
check_option no_type name s = some s

-- How `handle` ends: with an exception, with nullopt, or with the contents.
pub data Handled : Type 0 where
  throws : Handled
  rejected : Handled
  accepted : Contents → Handled

abbrev add_option : String → String → Contents → Contents
add_option name s contents = if empty s then contents else insert_or_assign name s contents

abbrev pub options : SetType → Datamap → List Element → Contents → Option Contents
options ty m [] contents = some contents
options ty m (e ∷ es) contents =
    let name = to_lower (attribute e "name") in
    let s = trim (eval m (attribute e "value")) in
    let skipped = options ty m es contents in
    if empty name || empty s
    then skipped
    else on_option (check_option ty name s) none λ t. options ty m es (add_option name t contents)

-- The attributes of the directive: none if one of them is not valid.
abbrev pub attributes_of : SetType → Element → Option (String × Contents)
attributes_of scope_user e =
    let for_att = attribute e "for" in
    if str_eq for_att "user" || str_eq for_att "author"
    then some ("", ("for", for_att) ∷ [])
    else none
attributes_of v_transfer e =
    let from_att = attribute e "from" in
    if str_eq from_att "user" || str_eq from_att "author" || str_eq from_att "contract"
    then some (from_att, ("from", from_att) ∷ [])
    else none
attributes_of _ e = some ("", [])

abbrev is_scope_user : SetType → Bool
is_scope_user scope_user = true
is_scope_user _ = false

abbrev is_v_transfer : SetType → Bool
is_v_transfer v_transfer = true
is_v_transfer _ = false

abbrev pub has_tag_check : SetType → String → Bool
has_tag_check ty from_att =
    is_scope_user ty || (is_v_transfer ty && (str_eq from_att "user" || str_eq from_att "author"))

-- The XML parser of tinyxml is `parse_xml`, none where it fails.
module _ (sv : Services) (parse_xml : String → Option Element) (st : Storage) where
  -- TagHandler::evalue; a tag without an element "update" is not met.
  unfoldable pub evalue_tag : String → Datamap → Bool
  evalue_tag tag m =
      on_option (parse_xml tag) false
        λ e. on_option (first_child e "update") false λ u. evalue sv m u

  abbrev pub check_tag : Contents → Option UserScopeRecord × DataManager → Handled × DataManager
  check_tag contents (r, dm) = (
    on_option r rejected λ found.
        if empty found.tag || evalue_tag found.tag dm.tx_datamap
        then accepted contents
        else rejected,
    dm,
  )

  -- For scope_user from_att is empty, so that the id is that of the variable "$".
  abbrev pub check_record : SetType → String → Contents → DataManager → Handled × DataManager
  check_record ty from_att contents dm =
      let id = eval dm.tx_datamap ("$" ++ from_att) in
      let pid = value_or "" (at "pid" contents) in
      let name = value_or "" (at (if is_scope_user ty then "name" else "unit") contents) in
      if not (has_tag_check ty from_att) || empty pid
      then (accepted contents, dm)
      else check_tag contents (get_user_scope_record_by_pid st id name pid dm)

  unfoldable pub handle : SetType → Element → DataManager → Handled × DataManager
  handle ty set_node dm =
      on_option (attributes_of ty set_node) (rejected, dm)
        λ a.
          let nodes = parse_children_from_no_if set_node "option" in
          on_option (options ty dm.tx_datamap nodes a.1) (throws, dm)
            λ contents. check_record ty a.0 contents dm

  -- A query of a contract: its type and its option.
  abbrev pub SetQuery : Type 0
  SetQuery = String × Contents

  abbrev pub known_type : SetType → Bool
  known_type no_type = false
  known_type _ = true

  -- The queries, or none if an exception ends the loop.
  unfoldable pub parse_set :
      List (Element × String)
      → ConditionManager
      → DataManager
      → Option (List SetQuery) × DataManager
  parse_set [] c dm = (some [], dm)
  parse_set ((set_node, if_id) ∷ nodes) c dm =
      let type_str = attribute set_node "type" in
      let (r, dm') = handle (set_type_of type_str) set_node dm in
      let (rest, end_) = parse_set nodes c dm' in
      let skipped = parse_set nodes c dm in
      if is_active c if_id && known_type (set_type_of type_str)
      then elim r [
        | throws ↦ (none, dm')
        | rejected ↦ (rest, end_)
        | accepted contents ↦ (on_option rest none λ qs. some ((type_str, contents) ∷ qs), end_)
      ]
      else skipped
