-- ===== src/Contract/Condition/Endorser.antt =====
-- The endorsers of a transaction: src/contract/endorser_handler.cpp.
use Prim.Native.String.{◌++◌, slice}
use gruut.Base.{
  ℕ, zero, suc, ◌/◌, ◌%◌, ◌+◌, String, Bool, true, false, not, ◌&&◌, ◌||◌, Option, none, some,
  str_eq, ◌==◌, if◌then◌else◌,
}
use gruut.Base.Int.{ℤ, pos, negsuc}
use gruut.Contract.Text.{empty, trim, str2num_int}
use gruut.Contract.Datamap.{Datamap, eval_opt, value_or}
use gruut.Contract.Document.{Element, element, Elements, no_more, child, lookup}
use gruut.Contract.Condition.{
  EvalRule, and_rule, or_rule, Secondary, get_eval_rule, rule_or, get_secondary_condition_type,
}

-- std::to_string, on as much fuel as the number
abbrev digits_of : ℕ → ℕ → String → String
digits_of zero n s = slice "0123456789" (n % 10) (n % 10 + 1) ++ s
digits_of (suc f) n s =
    let t = slice "0123456789" (n % 10) (n % 10 + 1) ++ s in
    let more = digits_of f (n / 10) t in if n / 10 == 0 then t else more

abbrev pub to_string : ℕ → String
to_string n = digits_of n n ""

-- "$tx.endorser[i].id"
abbrev nth_endorser : Datamap → ℕ → String
nth_endorser m i = value_or "" (eval_opt m ("$tx.endorser[" ++ to_string i ++ "].id"))

-- The loop from i on, for k endorsers.
unfoldable pub endorsed_from : Datamap → String → ℕ → ℕ → Bool
endorsed_from m id i zero = false
endorsed_from m id i (suc k) =
    let rest = endorsed_from m id (suc i) k in
    if not (empty (nth_endorser m i)) && str_eq (nth_endorser m i) id then true else rest

abbrev endorsed : Datamap → String → ℤ → Bool
endorsed m id (pos n) = endorsed_from m id 0 n
endorsed m id (negsuc n) = false

abbrev endorsed_opt : Datamap → String → Option String → Bool
endorsed_opt m id none = false
endorsed_opt m id (some n) = endorsed m id (str2num_int n)

unfoldable pub has_endorser : Datamap → String → Bool
has_endorser m id = endorsed_opt m (trim id) (eval_opt m "$tx.endorser.count")

abbrev pub by_rule : EvalRule → Bool → Bool → Bool
by_rule and_rule all_met some_met = all_met
by_rule or_rule all_met some_met = some_met

abbrev verdict : Secondary → Bool → Bool → Bool
verdict Secondary.endorser group id_met = group
verdict Secondary.if_all group id_met = group
verdict Secondary.nif group id_met = not group
verdict Secondary.id group id_met = id_met
verdict Secondary.user group id_met = false
verdict Secondary.receiver group id_met = false
verdict Secondary.location group id_met = false
verdict Secondary.service group id_met = false
verdict Secondary.age group id_met = false
verdict Secondary.gender group id_met = false
verdict Secondary.unknown group id_met = false

unfoldable mutual
  pub evalue : Datamap → Element → Bool
  evalue m (element n attrs t cs) =
      verdict (get_secondary_condition_type n)
        (by_rule (rule_or and_rule (get_eval_rule (lookup attrs "eval-rule"))) (all_met m cs)
          (some_met m cs))
        (has_endorser m t)

  pub all_met : Datamap → Elements → Bool
  all_met m no_more = true
  all_met m (child e es) = evalue m e && all_met m es

  pub some_met : Datamap → Elements → Bool
  some_met m no_more = false
  some_met m (child e es) = evalue m e || some_met m es
