-- ===== src/Contract/Condition/Handler/Meaning.antt =====
-- What a condition means, as a proposition over the texts of its tag and its rule, and that `evalue`
-- decides it.
use gruut.Base.{
  ◌≡◌, refl, ap, subst, ◌∙◌, String, Bool, true, false, ◌&&◌, ◌||◌, ◌⊎◌, inl, inr, ◌↔◌, List, [],
  ◌∷◌, map, str_eq, if◌then◌else◌, arith, Bool-cases,
}
use gruut.Contract.Text.{empty, empty-eq, to_lower}
use gruut.Contract.Datamap.{Datamap}
use gruut.Contract.Document.{Element, element, Elements, no_more, child, lookup}
use gruut.Contract.Condition.{or_rule, Primary, get_eval_rule, rule_or, get_primary_condition_type}
use gruut.Contract.Condition.Services.{Services}
use gruut.Contract.Condition.Compare.{evalue as evalue_compare}
use gruut.Contract.Condition.Time.{evalue as evalue_time}
use gruut.Contract.Condition.Certificate.{evalue as evalue_certificate}
use gruut.Contract.Condition.Endorser.{evalue as evalue_endorser, by_rule}
use gruut.Contract.Condition.Owner.{evalue as evalue_owner}
use gruut.Contract.Condition.Var.{evalue as evalue_var}
use gruut.Contract.Condition.Handler.{leaf, verdict, evalue, all_met, some_met}

-- What the tag of a condition says: the conditions that it holds decide it, or what they say is turned
-- round, or a handler has decided it.
pub data Meaning : Type 0 where
  group negated : Meaning
  decided : Bool → Meaning

-- The entry of a table under a key, or else the value given.
pub find_or {ℓ} : {A : Type ℓ} → A → List (String × A) → String → A
find_or d [] key = d
find_or d ((k, v) ∷ table) key = if str_eq key k then v else find_or d table key

-- The tags of conditions, in lower case. A tag that is not there is met.
abbrev pub meanings : Services → Datamap → Element → List (String × Meaning)
meanings s m e =
    ("condition", group)
    ∷ ("update", group)
    ∷ ("if", group)
    ∷ ("nif", negated)
    ∷ ("compare", decided (evalue_compare e m))
    ∷ ("signature", decided (s.signature e m))
    ∷ ("certificate", decided (evalue_certificate s.verify_cert e m))
    ∷ ("time", decided (evalue_time s.parse_time e m))
    ∷ ("endorser", decided (evalue_endorser m e))
    ∷ ("receiver", decided (evalue_owner s m "$receiver" e))
    ∷ ("user", decided (evalue_owner s m "$user" e))
    ∷ ("var", decided (evalue_var s e m))
    ∷ []

abbrev pub Says : Meaning → Type 0 → Type 0
Says group Group = Group
Says negated Group = ¬ Group
Says (decided b) Group = b ≡ true

-- One condition is enough if the rule is "or", in whatever case, or is not given; else each is needed.
abbrev pub one_is_enough : String → Bool
one_is_enough rule = empty rule || str_eq (to_lower rule) "or"

abbrev pub ByRule : Bool → Type 0 → Type 0 → Type 0
ByRule true Each One = One
ByRule false Each One = Each

-- A condition is met as its tag says: each or one of the conditions that it holds is met, or not so
-- under "nif", or the handler of the tag says so.
abbrev mutual
  pub Met : Services → Datamap → Element → Type 0
  Met s m (element n attrs t cs) =
      Says (find_or (decided true) (meanings s m (element n attrs t cs)) (to_lower n))
        (ByRule (one_is_enough (lookup attrs "eval-rule")) (EachMet s m cs) (OneMet s m cs))

  pub EachMet : Services → Datamap → Elements → Type 0
  EachMet s m no_more = Unit
  EachMet s m (child e es) = Met s m e × EachMet s m es

  pub OneMet : Services → Datamap → Elements → Type 0
  OneMet s m no_more = ⊥
  OneMet s m (child e es) = Met s m e ⊎ OneMet s m es

-- The tags of the handler, as a table.
abbrev primaries : List (String × Primary)
primaries =
    ("condition", Primary.root)
    ∷ ("update", Primary.root)
    ∷ ("if", Primary.if_all)
    ∷ ("nif", Primary.nif)
    ∷ ("compare", Primary.compare)
    ∷ ("signature", Primary.signature)
    ∷ ("certificate", Primary.certificate)
    ∷ ("time", Primary.time)
    ∷ ("endorser", Primary.endorser)
    ∷ ("receiver", Primary.receiver)
    ∷ ("user", Primary.user)
    ∷ ("var", Primary.var)
    ∷ []

primary_of-find_or :
    (n : String) → get_primary_condition_type n ≡ find_or Primary.unknown primaries (to_lower n)
unfolding get_primary_condition_type find_or to_lower
primary_of-find_or n = elim (Bool-cases (empty n)) [
  | inl e ↦ rw (empty-eq n e) refl
  | inr e ↦ rw e refl
]

-- What a type of condition says of the element.
abbrev meaning_of : Services → Datamap → Element → Primary → Meaning
meaning_of s m e Primary.root = group
meaning_of s m e Primary.if_all = group
meaning_of s m e Primary.nif = negated
meaning_of s m e p = decided (leaf s p m e)

find_or-map {ℓ κ} :
    {A : Type ℓ} {B : Type κ} (f : A → B) (d : A) (table : List (String × A)) (key : String)
    → f (find_or d table key) ≡ find_or (f d) (map (λ (k, v). (k, f v)) table) key
unfolding find_or
find_or-map f d [] key = refl
find_or-map f d ((k, v) ∷ table) key = elim (Bool-cases (str_eq key k)) [
  | inl e ↦ rw e refl
  | inr e ↦ rw e (find_or-map f d table key)
]

meaning_of-meanings :
    (s : Services) (m : Datamap) (e : Element) (n : String)
    → meaning_of s m e (get_primary_condition_type n)
      ≡ find_or (decided true) (meanings s m e) (to_lower n)
unfolding leaf
meaning_of-meanings s m e n =
    ap (meaning_of s m e) (primary_of-find_or n)
    ∙ find_or-map (meaning_of s m e) Primary.unknown primaries (to_lower n)

Says-verdict :
    (s : Services) (m : Datamap) (e : Element) (p : Primary) (Group : Type 0) (all : Bool)
    → ((all ≡ true) ↔ Group)
    → (verdict p all (leaf s p m e) ≡ true) ↔ Says (meaning_of s m e p) Group
Says-verdict s m e Primary.root Group all g = g
Says-verdict s m e Primary.if_all Group all g = g
Says-verdict s m e Primary.nif Group all g = (
  λ h x. let e = g.1 x in ground arith,
  λ n. elim (Bool-cases all) [ inl e ↦ elim (n (g.0 e)) [ ] | inr e ↦ rw e refl ],
)
Says-verdict s m e Primary.compare Group all g = (λ h. h, λ h. h)
Says-verdict s m e Primary.signature Group all g = (λ h. h, λ h. h)
Says-verdict s m e Primary.certificate Group all g = (λ h. h, λ h. h)
Says-verdict s m e Primary.time Group all g = (λ h. h, λ h. h)
Says-verdict s m e Primary.endorser Group all g = (λ h. h, λ h. h)
Says-verdict s m e Primary.receiver Group all g = (λ h. h, λ h. h)
Says-verdict s m e Primary.user Group all g = (λ h. h, λ h. h)
Says-verdict s m e Primary.var Group all g = (λ h. h, λ h. h)
Says-verdict s m e Primary.unknown Group all g = (λ h. h, λ h. h)

ByRule-by_rule :
    (rule : String) (Each One : Type 0) (each one : Bool)
    → ((each ≡ true) ↔ Each)
    → ((one ≡ true) ↔ One)
    → (by_rule (rule_or or_rule (get_eval_rule rule)) each one ≡ true)
      ↔ ByRule (one_is_enough rule) Each One
unfolding get_eval_rule
ByRule-by_rule rule Each One each one f g = elim (Bool-cases (empty rule)) [
  | inl e ↦ rw e g
  | inr e ↦ elim (Bool-cases (str_eq (to_lower rule) "or")) [
    | inl h ↦ rw (e, h) g
    | inr h ↦ rw (e, h) f
  ]
]

both_iff :
    (a b : Bool) (A B : Type 0) → ((a ≡ true) ↔ A) → ((b ≡ true) ↔ B) → ((a && b) ≡ true) ↔ (A × B)
both_iff true b A B f g = (λ h. (f.0 refl, g.0 h), λ x. g.1 x.1)
both_iff false b A B f g = (λ h. cc, λ x. f.1 x.0)

either_iff :
    (a b : Bool) (A B : Type 0) → ((a ≡ true) ↔ A) → ((b ≡ true) ↔ B) → ((a || b) ≡ true) ↔ (A ⊎ B)
either_iff true b A B f g = (λ h. inl (f.0 refl), λ x. refl)
either_iff false b A B f g =
    (λ h. inr (g.0 h), λ x. elim x [ inl y ↦ let e = f.1 y in cc | inr y ↦ g.1 y ])

mutual
  unfolding evalue

  decides : (s : Services) (m : Datamap) (e : Element) → (evalue s m e ≡ true) ↔ Met s m e
  decides s m (element n attrs t cs) =
      subst
        (λ w.
          (evalue s m (element n attrs t cs) ≡ true)
          ↔ Says w
              (ByRule (one_is_enough (lookup attrs "eval-rule")) (EachMet s m cs) (OneMet s m cs)))
        (meaning_of-meanings s m (element n attrs t cs) n)
        (Says-verdict s m (element n attrs t cs) (get_primary_condition_type n) _ _ (
          ByRule-by_rule (lookup attrs "eval-rule") _ _ _ _ (all_met_iff s m cs)
            (some_met_iff s m cs)))

  all_met_iff :
      (s : Services) (m : Datamap) (es : Elements) → (all_met s m es ≡ true) ↔ EachMet s m es
  all_met_iff s m no_more = (λ h. tt, λ h. refl)
  all_met_iff s m (child e es) =
      both_iff (evalue s m e) (all_met s m es) _ _ (decides s m e) (all_met_iff s m es)

  some_met_iff :
      (s : Services) (m : Datamap) (es : Elements) → (some_met s m es ≡ true) ↔ OneMet s m es
  some_met_iff s m no_more = (λ h. cc, λ x. elim x [ ])
  some_met_iff s m (child e es) =
      either_iff (evalue s m e) (some_met s m es) _ _ (decides s m e) (some_met_iff s m es)

-- On every condition, whatever the services and the data, `evalue` answers true just when the
-- condition is met: as the table of the tags says, with the rule "or", or one that is not given, if one
-- of the conditions that it holds is met, and with every other rule if each is.
pub evalue-Met : (s : Services) (m : Datamap) (e : Element) → (evalue s m e ≡ true) ↔ Met s m e
evalue-Met = decides
