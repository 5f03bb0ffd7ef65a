-- ===== src/Contract/Datamap.antt =====
-- The variables of a transaction: src/contract/datamap.cpp, and DataManager::eval and evalOpt of
-- src/contract/data_manager.cpp, which read them.
use gruut.Base.{
  String, true, Option, none, some, List, [], ◌∷◌, str_eq, if◌then◌else◌, ◌≡◌, refl, arith,
  Bool-cases, eq_iff, sym, ◌∙◌, inl, inr,
}
use gruut.Contract.Text.{trim, empty, is_variable}

abbrev pub Datamap : Type 0
Datamap = List (String × String)

unfoldable pub get : Datamap → String → Option String
get [] key = none
get ((k, v) ∷ m) key = if str_eq k key then some v else get m key

-- insert, or else an update in place
abbrev put : Datamap → String → String → Datamap
put [] key vv = (key, vv) ∷ []
put ((k, v) ∷ m) key vv = if str_eq k key then (k, vv) ∷ m else (k, v) ∷ put m key vv

unfoldable pub set : String → String → Datamap → Datamap
set key vv m = if empty key then m else put m key vv

abbrev pub clear : Datamap → Datamap
clear m = []

unfoldable pub eval_opt : Datamap → String → Option String
eval_opt m expr =
    if empty (trim expr)
    then none
    else if is_variable (trim expr)
    then get m (trim expr)
    else some (trim expr)

abbrev pub value_or : String → Option String → String
value_or s none = s
value_or s (some t) = t

unfoldable pub eval : Datamap → String → String
eval m expr =
    if empty (trim expr)
    then ""
    else if is_variable (trim expr)
    then value_or "" (get m (trim expr))
    else trim expr

-- `eval` is `eval_opt` with an empty text where that has no value.
pub eval-eval_opt : (m : Datamap) (expr : String) → eval m expr ≡ value_or "" (eval_opt m expr)
unfolding eval eval_opt
eval-eval_opt m expr = ground arith

get-put :
    (m : Datamap) (k v key : String)
    → get (put m k v) key ≡ (if str_eq k key then some v else get m key)
unfolding get
get-put [] k v key = refl
get-put ((l, w) ∷ m) k v key = elim (Bool-cases (str_eq l k)) [
  | inl e ↦ let same : l ≡ k = (eq_iff l k).0 e in rw (e, same) (ground arith)
  | inr e ↦ elim (Bool-cases (str_eq l key)) [
    | inl f ↦ elim (Bool-cases (str_eq k key)) [
      | inl g ↦
          let same : l ≡ k = (eq_iff l key).0 f ∙ sym ((eq_iff k key).0 g) in
          let eq : str_eq l k ≡ true = (eq_iff l k).1 same in cc
      | inr g ↦ rw (e, f, g) refl
    ]
    | inr f ↦ rw (e, f) (get-put m k v key)
  ]
]

-- A key that is set has the value from then on; every other key keeps its own. An empty key is not
-- set.
get-set :
    (m : Datamap) (k v key : String)
    → get (set k v m) key
      ≡ (if empty k then get m key else if str_eq k key then some v else get m key)
unfolding set
get-set m k v key = elim (Bool-cases (empty k)) [
  | inl e ↦ rw e refl
  | inr e ↦ rw e (get-put m k v key)
]
