-- ===== src/Contract/Runs.antt =====
-- A block with one transaction of a small contract, and instances of the theorems on runs.
use gruut.Base.{
  ◌≡◌, refl, Bool, ap, ℕ, String, true, false, Option, none, some, List, [], ◌∷◌, str_eq,
  if◌then◌else◌, str_eq,
}
use gruut.Base.Int.{pos}
use gruut.Contract.Document.{Element, element, no_more, child}
use gruut.Contract.Condition.Services.{Services}
use gruut.Contract.Condition.Manager.{new_manager}
use gruut.Contract.Fee.{parse_fee, parse_fee-last, last_value, pays}
use gruut.Contract.Input.{InputServices}
use gruut.Contract.Xml.{ElementParser}
use gruut.Contract.DataManager.{DataManager, QueryResult, Storage, new_data_manager}
use gruut.Contract.DataManager.Cached.{
  Lookup, user_info, key_currency, record_by_pid, scope_variables, clear_all, look_up_all, IsValid,
  IsKey, look_up_all-IsValid, new_data_manager-IsValid,
}
use gruut.Contract.Condition.Handler.{evalue}
use gruut.Contract.LookUps.{RunState, evalue_in}
use gruut.Contract.Runner.{Surroundings, RunResult, run}
use gruut.Contract.Runner.Charged.{Accounted, run-Accounted}
use gruut.Contract.Runner.Transaction.{Tx}
use gruut.Contract.Engine.{proc_block}
use gruut.Contract.Engine.Results.{HasResults, proc_block-HasResults}

-- No dates and no certificates.
abbrev services : Services
services = record {
  parse_time = λ s. some 5;
  verify_cert = λ a b. false;
  Date = ℕ;
  parse_date = λ s. none;
  date_of = λ n. n;
  add_years = λ d n. d;
  before = λ a b. false;
  scope_variable = λ a b c. none;
  signature = λ e m. false;
}

abbrev input_services : InputServices
input_services = record {
  regex_match = λ v r. true;
  is_float = λ v. true;
  is_xml = λ v. true;
  int_attribute = λ e key default. default;
  dump = λ vs. "";
  all_xdigit = λ v. true;
  certificate = λ v. ("", "", "");
}

-- The world, the chain and the users have one attribute, and each user has 100 of the key currency.
abbrev answer : String → Option QueryResult
answer type =
    if str_eq type "user.scope.get"
    then some record {
      name = "var_name" ∷ "var_value" ∷ "var_type" ∷ [];
      data_ = ("KEYC" ∷ "100" ∷ "KEYC" ∷ []) ∷ [];
    }
    else some record { name = "keyc_name" ∷ []; data_ = ("KEYC" ∷ []) ∷ [] }

abbrev storage : Storage
storage = record { read = λ q. answer q.type; key = λ q. q.type }

storage-IsKey : IsKey storage
storage-IsKey q r e = ap answer e

abbrev look_ups : List Lookup
look_ups =
    user_info "u"
    ∷ key_currency "u"
    ∷ scope_variables "user" "u" "*"
    ∷ record_by_pid "u" "KEYC" ""
    ∷ clear_all
    ∷ key_currency "u"
    ∷ []

look_up_all-IsValid_example : IsValid storage (look_up_all storage look_ups new_data_manager)
look_up_all-IsValid_example =
    look_up_all-IsValid storage storage-IsKey look_ups new_data_manager
      (new_data_manager-IsValid storage storage-IsKey)

abbrev pay_12 : Element
pay_12 = element "pay" (("from", "user") ∷ ("value", "12") ∷ []) "" no_more

abbrev fee_12 : Element
fee_12 = element "fee" [] "" (child pay_12 no_more)

parse_fee-last_example :
    parse_fee ((fee_12, "") ∷ []) new_manager []
    ≡ some (
      last_value [] true (pos 0) (pays new_manager ((fee_12, "") ∷ [])),
      last_value [] false (pos 0) (pays new_manager ((fee_12, "") ∷ [])),
    )
parse_fee-last_example = parse_fee-last (fee_12, "") [] new_manager []

abbrev create : Element
create =
    element "set" (("type", "v.create") ∷ []) ""
      (child (element "option" (("name", "amount") ∷ ("value", "7") ∷ []) "" no_more) no_more)

-- <contract><head><after>x</after></head><body><input/><set ...></set></body><fee>...</fee></contract>
abbrev contract : Element
contract = element "contract" [] "" (
    child (element "head" [] "" (child (element "after" [] "2018-01-01" no_more) no_more)) (
      child (element "body" [] "" (child (element "input" [] "" no_more) (child create no_more)))
        (child fee_12 no_more)))

abbrev surroundings : Surroundings
surroundings = record {
  services = services;
  sha256 = λ s. [];
  inputs = input_services;
  parse_xml = λ s. some contract;
  storage = storage;
}

abbrev tx : Tx
tx = record {
  txid = "t";
  time = 9;
  cid = "c::author::chain::world";
  receiver = "r";
  fee = pos 10;
  user_id = "u";
  user_pk = "";
  endorsers = [];
  inputs = ([] ∷ []) ∷ [];
}

proc_block-HasResults_example :
    HasResults (tx ∷ []) (proc_block surroundings (λ cid. some "doc") (tx ∷ []) []).0
proc_block-HasResults_example = proc_block-HasResults surroundings (λ cid. some "doc") (tx ∷ []) []

-- <if id="c"><var scope="user" id="$user" name="KEYC" ref="50" type="ge"/></if>
abbrev rich : Element
rich = element "if" (("id", "c") ∷ []) "" (
    child
      (element "var"
        (("scope", "user")
          ∷ ("id", "$user")
          ∷ ("name", "KEYC")
          ∷ ("ref", "50")
          ∷ ("type", "ge")
          ∷ [])
        "" no_more)
      no_more)

abbrev parser : ElementParser
parser = record {
  head = some (element "head" [] "" (child (element "after" [] "2018-01-01" no_more) no_more));
  body = contract;
  input = element "input" [] "" no_more;
  gets = [];
  sets = (create, "") ∷ [];
  conditions = (rich, "") ∷ [];
  fees = (fee_12, "") ∷ [];
}

-- The data manager with the users of the transaction.
abbrev with_users : DataManager
with_users = record new_data_manager {
  tx_datamap = ("$user", "u") ∷ ("$author", "a") ∷ ("$receiver", "r") ∷ ("$time", "9") ∷ [];
}

abbrev paid : Option RunResult × RunState
paid = run surroundings parser (([] ∷ []) ∷ []) (with_users, new_manager)

run-Accounted_example :
    Accounted surroundings parser
      (([] ∷ []) ∷ [])
      (with_users, new_manager)
      (run surroundings parser (([] ∷ []) ∷ []) (with_users, new_manager)).0
run-Accounted_example = run-Accounted surroundings parser (([] ∷ []) ∷ []) (with_users, new_manager)

abbrev status_of : Option RunResult → Bool
status_of none = false
status_of (some r) = r.status

-- That run is one that both payers can pay, and ends with queries.
paid_status : status_of paid.0 ≡ true
unfolding gruut.Base.bytes_eq gruut.Base.at gruut.Base.insert_or_assign
    gruut.Contract.Condition.Manager.find gruut.Contract.Condition.Time.evalue
    gruut.Contract.Condition.Time.in_period gruut.Contract.Condition.get_primary_condition_type
    gruut.Contract.DataManager.Lookups.cached_variables
    gruut.Contract.DataManager.Lookups.get_scope_variables
    gruut.Contract.DataManager.Lookups.get_user_key_currency
    gruut.Contract.DataManager.parse_user_scope gruut.Contract.DataManager.query_and_cache
    gruut.Contract.DataManager.query_user_scope gruut.Contract.Datamap.eval
    gruut.Contract.Datamap.eval_opt gruut.Contract.Datamap.get gruut.Contract.Get.parse_get
    gruut.Contract.Input.parse_input gruut.Contract.LookUps.evalue_cached_in
    gruut.Contract.LookUps.evalue_in gruut.Contract.LookUps.look_up_in
    gruut.Contract.Runner.in_run_period gruut.Contract.Runner.prepare
    gruut.Contract.Set.check_option gruut.Contract.Set.handle gruut.Contract.Set.parse_set
    gruut.Contract.Set.set_type_of gruut.Contract.Text.str2num_int
    gruut.Contract.Text.timestr2timestamp gruut.Contract.Text.to_lower gruut.Contract.Text.trim
    gruut.Contract.Xml.parse_children_from_no_if parse_fee run
paid_status = refl

-- The data manager that has looked the balance of the user up.
abbrev looked_up : DataManager
looked_up = record with_users {
  query_cache = ("user.scope.get", answer "user.scope.get") ∷ [];
  user_scope_table =
      (
        "uKEYC",
        record {
          var_name = "KEYC";
          var_value = "100";
          var_type = "KEYC";
          var_owner = "u";
          tag = "";
          pid = "";
        }
            ∷ [],
      )
      ∷ [];
}
