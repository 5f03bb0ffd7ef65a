-- ===== src/Contract/Condition.antt =====
-- The conditions of a contract. The tags and rules: src/contract/base_condition_handler.cpp.
pub mod Compare
pub mod Time
pub mod Certificate
pub mod Services
pub mod Endorser
pub mod Owner
pub mod Var
pub mod Handler
pub mod Manager
use gruut.Base.{String, Bool, true, false, Option, none, some, str_eq, if◌then◌else◌}
use gruut.Contract.Text.{empty, to_lower}

pub data EvalRule : Type 0 where
  and_rule or_rule : EvalRule

pub data Primary : Type 0 where
  root if_all nif compare signature certificate time endorser receiver user var unknown : Primary

pub data Secondary : Type 0 where
  user receiver endorser if_all nif id location service age gender unknown : Secondary

unfoldable pub get_eval_rule : String → Option EvalRule
get_eval_rule s =
    if empty s then none else some (if str_eq (to_lower s) "or" then or_rule else and_rule)

abbrev pub rule_or : EvalRule → Option EvalRule → EvalRule
rule_or r none = r
rule_or r (some s) = s

abbrev primary_of : String → Primary
primary_of s =
    if str_eq s "condition"
    then Primary.root
    else if str_eq s "update"
    then Primary.root
    else if str_eq s "if"
    then Primary.if_all
    else if str_eq s "nif"
    then Primary.nif
    else if str_eq s "compare"
    then Primary.compare
    else if str_eq s "signature"
    then Primary.signature
    else if str_eq s "certificate"
    then Primary.certificate
    else if str_eq s "time"
    then Primary.time
    else if str_eq s "endorser"
    then Primary.endorser
    else if str_eq s "receiver"
    then Primary.receiver
    else if str_eq s "user"
    then Primary.user
    else if str_eq s "var"
    then Primary.var
    else Primary.unknown

unfoldable pub get_primary_condition_type : String → Primary
get_primary_condition_type tag = if empty tag then Primary.unknown else primary_of (to_lower tag)

abbrev secondary_of : String → Secondary
secondary_of s =
    if str_eq s "if"
    then Secondary.if_all
    else if str_eq s "nif"
    then Secondary.nif
    else if str_eq s "age"
    then Secondary.age
    else if str_eq s "gender"
    then Secondary.gender
    else if str_eq s "service"
    then Secondary.service
    else if str_eq s "id"
    then Secondary.id
    else if str_eq s "location"
    then Secondary.location
    else if str_eq s "endorser"
    then Secondary.endorser
    else if str_eq s "user"
    then Secondary.user
    else if str_eq s "receiver"
    then Secondary.receiver
    else Secondary.unknown

unfoldable pub get_secondary_condition_type : String → Secondary
get_secondary_condition_type tag =
    if empty tag then Secondary.unknown else secondary_of (to_lower tag)
