-- ===== src/Contract/Condition/Handler.antt =====
-- The condition of a contract, and all that it holds: src/contract/condition_handler.cpp.
pub mod Meaning
use gruut.Base.{Bool, true, false, not, ◌&&◌, ◌||◌}
use gruut.Contract.Datamap.{Datamap}
use gruut.Contract.Document.{Element, element, Elements, no_more, child, lookup}
use gruut.Contract.Condition.{or_rule, Primary, get_eval_rule, rule_or, get_primary_condition_type}
use gruut.Contract.Condition.Services.{Services}
use gruut.Contract.Condition.Compare.{evalue as evalue_compare}
use gruut.Contract.Condition.Time.{evalue as evalue_time}
use gruut.Contract.Condition.Certificate.{evalue as evalue_certificate}
use gruut.Contract.Condition.Endorser.{evalue as evalue_endorser, by_rule}
use gruut.Contract.Condition.Owner.{evalue as evalue_owner, user_key}
use gruut.Contract.Condition.Var.{evalue as evalue_var}

abbrev pub verdict : Primary → Bool → Bool → Bool
verdict Primary.root group met = group
verdict Primary.if_all group met = group
verdict Primary.nif group met = not group
verdict _ group met = met

module _ (s : Services) where
  -- The conditions that other handlers decide; a tag that is not known is met.
  unfoldable pub leaf : Primary → Datamap → Element → Bool
  leaf Primary.compare m e = evalue_compare e m
  leaf Primary.signature m e = s.signature e m
  leaf Primary.certificate m e = evalue_certificate s.verify_cert e m
  leaf Primary.time m e = evalue_time s.parse_time e m
  leaf Primary.endorser m e = evalue_endorser m e
  leaf Primary.receiver m e = evalue_owner s m (user_key Primary.receiver) e
  leaf Primary.user m e = evalue_owner s m (user_key Primary.user) e
  leaf Primary.var m e = evalue_var s e m
  leaf _ m e = true

  unfoldable mutual
    pub evalue : Datamap → Element → Bool
    evalue m (element n attrs t cs) =
        verdict (get_primary_condition_type n)
          (by_rule (rule_or or_rule (get_eval_rule (lookup attrs "eval-rule"))) (all_met m cs)
            (some_met m cs))
          (leaf (get_primary_condition_type n) m (element n attrs t cs))

    pub all_met : Datamap → Elements → Bool
    all_met m no_more = true
    all_met m (child e es) = evalue m e && all_met m es

    pub some_met : Datamap → Elements → Bool
    some_met m no_more = false
    some_met m (child e es) = evalue m e || some_met m es
