-- ===== src/Contract/Tests.antt =====
-- Runs of the conditions of a contract, and instances of their theorems.
use gruut.Base.{Bytes, ℕ, String, Bool, true, false, ◌↔◌, none, some, [], ◌∷◌, map, ◌≡◌, refl, ltb}
use gruut.Base.Int.{pos, negsuc, to_int}
use gruut.Contract.Text.{trim, to_lower, to_upper, str2num_int, str2num_u64, timestr2timestamp}
use gruut.Contract.Datamap.{Datamap, get, eval_opt}
use gruut.Contract.Document.{Element, element, no_more, child}
use gruut.Contract.Condition.{get_primary_condition_type, get_eval_rule}
use gruut.Contract.Condition.Services.{Services}
use gruut.Contract.Condition.Compare.{leb_ℤ, evalue_compare, compare_values, get_compare_type}
use gruut.Contract.Condition.Time.{in_period, evalue as evalue_time}
use gruut.Contract.Condition.Handler.{evalue, leaf}
use gruut.Contract.Condition.Handler.Meaning.{Met, evalue-Met}
use gruut.Contract.Condition.Manager.{answers, new_manager, keyword_search}
use gruut.Contract.Condition.Manager.Stale.{answers-stale}

-- Times are years, and a date is a number of days; no certificate is accepted.
abbrev services : Services
services = record {
  parse_time = λ s. some (str2num_u64 s);
  verify_cert = λ a b. false;
  Date = ℕ;
  parse_date = λ s. some (str2num_u64 s);
  date_of = λ n. n;
  add_years = λ d n. d;
  before = λ a b. ltb a b;
  scope_variable = λ a b c. none;
  signature = λ e m. false;
}

numbers :
    (str2num_int " -12a" ≡ negsuc 11)
    × (str2num_int "+7" ≡ pos 7)
    × (str2num_int "9223372036854775808" ≡ pos 0)
unfolding str2num_int
numbers = (refl, refl, refl)

words : (trim "  a b " ≡ "a b") × (to_lower "NiF" ≡ "nif") × (to_upper "ge" ≡ "GE")
unfolding trim to_lower to_upper
words = (refl, refl, refl)

abbrev fee_data : Datamap
fee_data = ("$fee", "12") ∷ []

-- <if id="c"><compare src="$fee" ref="10" type="ge"/></if>
abbrev enough : Element
enough = element "if" (("id", "c") ∷ []) "" (
    child (element "compare" (("src", "$fee") ∷ ("ref", "10") ∷ ("type", "ge") ∷ []) "" no_more)
      no_more)

enough_met :
    (evalue services fee_data enough ≡ true) × (evalue services (("$fee", "9") ∷ []) enough ≡ false)
unfolding evalue get_primary_condition_type get_eval_rule to_lower leaf evalue_compare
    get_compare_type to_upper compare_values eval_opt trim get str2num_int
enough_met = (refl, refl)

evalue-Met_example : (evalue services fee_data enough ≡ true) ↔ Met services fee_data enough
evalue-Met_example = evalue-Met services fee_data enough

-- <if id="t"><time><after>2019-01-01</after></time></if>: the time is no attribute.
abbrev this_year : Element
this_year =
    element "if" (("id", "t") ∷ []) "" (
      child (element "time" [] "" (child (element "after" [] "2019-01-01" no_more) no_more))
        no_more)

no_keywords : keyword_search this_year [] ≡ []
unfolding keyword_search
no_keywords = refl

abbrev at : String → Datamap
at t = ("$time", t) ∷ []

-- The condition starts to hold, and its manager does not notice.
turns_true :
    (evalue services (at "1") this_year ≡ false) × (evalue services (at "5000") this_year ≡ true)
unfolding evalue get_primary_condition_type get_eval_rule to_lower leaf evalue_time in_period
    timestr2timestamp str2num_u64 trim eval_opt get
turns_true = (refl, refl)

abbrev digest : String → Bytes
digest s = str2num_u64 s ∷ []

answers-stale_example :
    answers services digest (map (λ d. (this_year, d)) (at "1" ∷ at "5000" ∷ [])) new_manager
    ≡ map (λ d. evalue services (at "1") this_year) (at "1" ∷ at "5000" ∷ [])
answers-stale_example =
    answers-stale services digest this_year refl no_keywords (at "1") (at "5000" ∷ [])

abbrev fee_met : ℕ → Bool
fee_met n = leb_ℤ (pos 10) (to_int n)
