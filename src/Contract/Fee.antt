-- ===== src/Contract/Fee.antt =====
-- The fee directives: src/contract/fee_handler.cpp.
use gruut.Base.{
  String, Bool, true, false, not, ◌&&◌, Option, none, some, List, [], ◌∷◌, ◌++◌, str_eq,
  if◌then◌else◌, ◌≡◌, refl, ap, sym, ◌∙◌, inl, inr, Bool-cases,
}
use gruut.Base.Int.{ℤ, pos}
use gruut.Contract.Text.{empty, str2num_int}
use gruut.Contract.Datamap.{Datamap, eval}
use gruut.Contract.Document.{Element, attribute}
use gruut.Contract.Condition.Manager.{ConditionManager, get_eval_result_by_id}
use gruut.Contract.Xml.{parse_children_from_no_if}

-- !(!condition_id.empty() && !condition_manager.getEvalResultById(condition_id))
abbrev pub is_active : ConditionManager → String → Bool
is_active c condition_id =
    not (not (empty condition_id) && not (get_eval_result_by_id condition_id c))

-- What the user pays and what the author pays, after one element more. Only the value of the user may be
-- a variable.
abbrev pub pay : Datamap → Element → ℤ × ℤ → ℤ × ℤ
pay m pay_node (user, author) =
    let value = attribute pay_node "value" in
    if str_eq (attribute pay_node "from") "user"
    then (str2num_int (eval m value), author)
    else (user, str2num_int value)

abbrev pub pay_all : Datamap → List Element → ℤ × ℤ → ℤ × ℤ
pay_all m [] fee = fee
pay_all m (e ∷ es) fee = pay_all m es (pay m e fee)

abbrev pub pay_nodes : ConditionManager → Datamap → List (Element × String) → ℤ × ℤ → ℤ × ℤ
pay_nodes c m [] fee = fee
pay_nodes c m ((fee_node, condition_id) ∷ nodes) fee =
    let next = pay_all m (parse_children_from_no_if fee_node "pay") fee in
    let paid = pay_nodes c m nodes next in
    let skipped = pay_nodes c m nodes fee in if is_active c condition_id then paid else skipped

unfoldable pub parse_fee : List (Element × String) → ConditionManager → Datamap → Option (ℤ × ℤ)
parse_fee [] c m = none
parse_fee (n ∷ nodes) c m = some (pay_nodes c m (n ∷ nodes) (pos 0, pos 0))

-- All `pay` elements of the directives that apply, in their order.
abbrev pub pays : ConditionManager → List (Element × String) → List Element
pays c [] = []
pays c ((fee_node, condition_id) ∷ nodes) =
    let rest = pays c nodes in
    if is_active c condition_id then parse_children_from_no_if fee_node "pay" ++ rest else rest

abbrev pub from_user : Element → Bool
from_user e = str_eq (attribute e "from") "user"

abbrev value_of : Datamap → Element → ℤ
value_of m e =
    if from_user e
    then str2num_int (eval m (attribute e "value"))
    else str2num_int (attribute e "value")

-- The value of the last element from the user, or of the last that is not, or else the one given.
abbrev pub last_value : Datamap → Bool → ℤ → List Element → ℤ
last_value m user v [] = v
last_value m true v (e ∷ es) = last_value m true (if from_user e then value_of m e else v) es
last_value m false v (e ∷ es) = last_value m false (if from_user e then v else value_of m e) es

pay_all-append :
    (m : Datamap) (xs ys : List Element) (fee : ℤ × ℤ)
    → pay_all m (xs ++ ys) fee ≡ pay_all m ys (pay_all m xs fee)
pay_all-append m [] ys fee = refl
pay_all-append m (x ∷ xs) ys fee = pay_all-append m xs ys (pay m x fee)

pay_nodes-pays :
    (c : ConditionManager) (m : Datamap) (nodes : List (Element × String)) (fee : ℤ × ℤ)
    → pay_nodes c m nodes fee ≡ pay_all m (pays c nodes) fee
pay_nodes-pays c m [] fee = refl
pay_nodes-pays c m ((e, id) ∷ nodes) fee = elim (Bool-cases (is_active c id)) [
  | inl a ↦
      let own = parse_children_from_no_if e "pay" in
      rw a (
        pay_nodes-pays c m nodes (pay_all m own fee)
        ∙ sym (pay_all-append m own (pays c nodes) fee))
  | inr a ↦ rw a (pay_nodes-pays c m nodes fee)
]

pay_all-last_value :
    (m : Datamap) (es : List Element) (user author : ℤ)
    → pay_all m es (user, author) ≡ (last_value m true user es, last_value m false author es)
pay_all-last_value m [] user author = refl
pay_all-last_value m (e ∷ es) user author = elim (Bool-cases (from_user e)) [
  | inl f ↦ rw f (pay_all-last_value m es (str2num_int (eval m (attribute e "value"))) author)
  | inr f ↦ rw f (pay_all-last_value m es user (str2num_int (attribute e "value")))
]

-- With a fee directive, the user pays the last value that any applying directive names for the user, and
-- the author the last that any names for another payer, each 0 where there is none: the two may come
-- from two directives.
pub parse_fee-last :
    (n : Element × String) (nodes : List (Element × String)) (c : ConditionManager) (m : Datamap)
    → parse_fee (n ∷ nodes) c m
      ≡ some (
        last_value m true (pos 0) (pays c (n ∷ nodes)),
        last_value m false (pos 0) (pays c (n ∷ nodes)),
      )
unfolding parse_fee
parse_fee-last n nodes c m = ap some (
    pay_nodes-pays c m (n ∷ nodes) (pos 0, pos 0)
    ∙ pay_all-last_value m (pays c (n ∷ nodes)) (pos 0) (pos 0))
