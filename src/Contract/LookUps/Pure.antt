-- ===== src/Contract/LookUps/Pure.antt =====
-- The conditions of a run, where nothing is to be looked up any more, are those of the handler.
use gruut.Base.{◌≡◌, refl, ap, ◌∙◌, Bool, true, if◌then◌else◌}
use gruut.Contract.Document.{Element, element, Elements, no_more, child}
use gruut.Contract.Condition.{Primary, get_primary_condition_type}
use gruut.Contract.Condition.Services.{Services}
use gruut.Contract.Condition.Handler.{leaf, verdict, evalue, all_met, some_met}
use gruut.Contract.DataManager.{Storage, DataManager}
use gruut.Contract.LookUps.{evalue_in, group_in, services_for, after_leaf, is_group}

module _ (sv : Services) (st : Storage) (dm : DataManager) where
  -- The look-ups that an element makes leave the data manager as it is: the caches have what they need.
  abbrev mutual
    pub IsSettled : Element → Type 0
    IsSettled (element n attrs t cs) =
        (after_leaf sv st (get_primary_condition_type n) (element n attrs t cs) dm ≡ dm)
        × EachSettled cs

    pub EachSettled : Elements → Type 0
    EachSettled no_more = Unit
    EachSettled (child e es) = IsSettled e × EachSettled es

  -- What a type of condition gives: the verdict on its group, or its leaf.
  abbrev by_type : Primary → Element → Bool → Bool × DataManager
  by_type p e all =
      if is_group p
      then (verdict p all true, dm)
      else (leaf (services_for sv st dm) p dm.tx_datamap e, after_leaf sv st p e dm)

  abbrev pure : Primary → Element → Bool → DataManager → Bool × DataManager
  pure p e all d = (verdict p all (leaf (services_for sv st dm) p dm.tx_datamap e), d)

  by_type-pure :
      (p : Primary) (e : Element) (all : Bool)
      → by_type p e all ≡ pure p e all (after_leaf sv st p e dm)
  by_type-pure Primary.root e all = refl
  by_type-pure Primary.if_all e all = refl
  by_type-pure Primary.nif e all = refl
  by_type-pure Primary.compare e all = refl
  by_type-pure Primary.signature e all = refl
  by_type-pure Primary.certificate e all = refl
  by_type-pure Primary.time e all = refl
  by_type-pure Primary.endorser e all = refl
  by_type-pure Primary.receiver e all = refl
  by_type-pure Primary.user e all = refl
  by_type-pure Primary.var e all = refl
  by_type-pure Primary.unknown e all = refl

  mutual
    unfolding evalue_in evalue

    by_handler :
        (e : Element)
        → IsSettled e
        → evalue_in sv st e dm ≡ (evalue (services_for sv st dm) dm.tx_datamap e, dm)
    by_handler (element n attrs t cs) settled =
        let p = get_primary_condition_type n in
        rw (groups_by_handler cs settled.1)
          (by_type-pure p (element n attrs t cs) _ ∙ ap (pure p (element n attrs t cs) _) settled.0)

    groups_by_handler :
        (es : Elements)
        → EachSettled es
        → group_in sv st es dm ≡ (
          all_met (services_for sv st dm) dm.tx_datamap es,
          some_met (services_for sv st dm) dm.tx_datamap es,
          dm,
        )
    groups_by_handler no_more settled = refl
    groups_by_handler (child e es) settled =
        rw (by_handler e settled.0, groups_by_handler es settled.1) refl
