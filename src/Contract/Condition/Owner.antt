-- ===== src/Contract/Condition/Owner.antt =====
-- The user or receiver of a transaction: src/contract/user_handler.cpp.
use Prim.Native.String.{◌++◌}
use gruut.Base.{
  ℕ, ◌*◌, ◌^◌, ◌%◌, String, Bool, true, false, not, ◌&&◌, ◌||◌, List, Option, none, some, str_eq,
  ◌==◌, if◌then◌else◌,
}
use gruut.Contract.Text.{empty, trim, to_upper, str2num_int, str2num_u64}
use gruut.Contract.Datamap.{Datamap, eval, eval_opt}
use gruut.Contract.Document.{Element, element, Elements, no_more, child, lookup}
use gruut.Contract.Condition.{
  and_rule, Primary, Secondary, get_eval_rule, rule_or, get_secondary_condition_type,
}
use gruut.Contract.Condition.Services.{Services}
use gruut.Contract.Condition.Endorser.{by_rule}

-- setUserType, on a new handler
abbrev pub user_key : Primary → String
user_key Primary.receiver = "$receiver"
user_key _ = "$user"

abbrev same_opt : Option String → String → Bool
same_opt none s = false
same_opt (some t) s = str_eq t s

abbrev located : Datamap → String → List (String × String) → Bool
located m key attrs =
    same_opt (eval_opt m (key ++ ".location"))
      (trim (lookup attrs "country" ++ " " ++ lookup attrs "state"))

abbrev served : Datamap → String → List (String × String) → String → Bool
served m key attrs t =
    same_opt (eval_opt m (key ++ ".isc_type")) (lookup attrs "type")
    && same_opt (eval_opt m (key ++ ".isc_code")) (trim t)

module _ (s : Services) where
  -- The day that ends the given years of age is past, or is to come.
  abbrev older : s.Date → s.Date → String → Bool
  older birthday today years = s.before (s.add_years birthday (str2num_int years)) today

  abbrev younger : s.Date → s.Date → String → Bool
  younger birthday today years = s.before today (s.add_years birthday (str2num_int years))

  unfoldable pub aged : String → String → s.Date → s.Date → Bool
  aged after before birthday today =
      if empty before
      then older birthday today after
      else if empty after
      then younger birthday today before
      else older birthday today after && younger birthday today before

  abbrev aged_on : String → String → Option s.Date → ℕ → Bool
  aged_on after before none now = false
  aged_on after before (some birthday) now =
      if now == 0 then false else aged after before birthday (s.date_of now)

  abbrev of_age : Datamap → String → String → String → Bool
  of_age m key after before =
      if empty after && empty before
      then false
      else if empty (eval m (key ++ ".birthday"))
      then false
      else aged_on after before (s.parse_date (eval m (key ++ ".birthday")))
          ((str2num_u64 (eval m "$time") * 1000) % 2 ^ 64)

  -- The conditions that hold no others.
  unfoldable pub property : Secondary → Datamap → String → List (String × String) → String → Bool
  property Secondary.id m key attrs t = str_eq (eval m key) (trim t)
  property Secondary.location m key attrs t = located m key attrs
  property Secondary.service m key attrs t = served m key attrs t
  property Secondary.gender m key attrs t =
      same_opt (eval_opt m (key ++ ".gender")) (to_upper (trim t))
  property Secondary.age m key attrs t =
      of_age m key (trim (lookup attrs "after")) (trim (lookup attrs "before"))
  property _ m key attrs t = false

  abbrev verdict : Secondary → Bool → Bool → Bool
  verdict Secondary.user group met = group
  verdict Secondary.receiver group met = group
  verdict Secondary.if_all group met = group
  verdict Secondary.nif group met = not group
  verdict _ group met = met

  unfoldable mutual
    pub evalue : Datamap → String → Element → Bool
    evalue m key (element n attrs t cs) =
        verdict (get_secondary_condition_type n)
          (by_rule (rule_or and_rule (get_eval_rule (lookup attrs "eval-rule"))) (all_met m key cs)
            (some_met m key cs))
          (property (get_secondary_condition_type n) m key attrs t)

    pub all_met : Datamap → String → Elements → Bool
    all_met m key no_more = true
    all_met m key (child e es) = evalue m key e && all_met m key es

    pub some_met : Datamap → String → Elements → Bool
    some_met m key no_more = false
    some_met m key (child e es) = evalue m key e || some_met m key es
