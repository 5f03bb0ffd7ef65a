-- ===== src/Contract/Runner/Transaction.antt =====
-- The variables of a transaction: setTransaction of src/contract/contract_runner.cpp.
use Prim.Native.Char.{Char, code}
use Prim.Native.String.{[], ◌∷◌, ◌++◌}
use gruut.Base.{ℕ, suc, String, ◌&&◌, ◌||◌, List, length, get_elem?, ◌==◌, if◌then◌else◌, on_option}
use gruut.Base.Int.{ℤ, pos}
use gruut.Contract.Text.{empty}
use gruut.Contract.Condition.Compare.{ltb_ℤ}
use gruut.Contract.Condition.Endorser.{to_string}
use gruut.Contract.DataManager.{DataManager, update_value}
use gruut.Contract.DataManager.Lookups.{int_text}
use gruut.Contract.Runner.{Inputs}

pub record Tx : Type 0 where
  pub txid : String
  pub time : ℕ
  pub cid : String
  pub receiver : String
  pub fee : ℤ
  pub user_id : String
  pub user_pk : String
  -- the id and the key of each
  pub endorsers : List (String × String)
  pub inputs : Inputs

abbrev pub min_user_fee : ℕ
min_user_fee = 10

-- A character in front of the first part.
abbrev onto_first : Char → List String → List String
onto_first c List.[] = List.◌∷◌ (c ∷ []) List.[]
onto_first c (List.◌∷◌ s parts) = List.◌∷◌ (c ∷ s) parts

-- mt::split(cid, "::")
unfoldable pub split : String → List String
split [] = List.◌∷◌ "" List.[]
split (c ∷ []) = List.◌∷◌ (c ∷ []) List.[]
split (c ∷ d ∷ s) =
    let rest = split s in
    let next = split (d ∷ s) in
    if code c == 58 && code d == 58 then List.◌∷◌ "" rest else onto_first c next

-- Set, refused with a text, or an access to a part of the contract id that is not there.
pub data SetTx : Type 0 where
  set_ok : DataManager → SetTx
  set_error : String → SetTx
  no_part : SetTx

abbrev set_endorsers : ℕ → List (String × String) → DataManager → DataManager
set_endorsers i List.[] dm = dm
set_endorsers i (List.◌∷◌ (id, pk) es) dm =
    let prefix = "$tx.endorser[" ++ to_string i ++ "]." in
    set_endorsers (suc i) es
      (update_value (prefix ++ "pk") pk (update_value (prefix ++ "id") id dm))

abbrev set_all : Tx → String → String → String → DataManager → DataManager
set_all tx author chain world dm0 =
    let dm1 = update_value "$txid" tx.txid (update_value "$tx.txid" tx.txid dm0) in
    let time = to_string tx.time in
    let dm2 = update_value "$time" time (update_value "$tx.time" time dm1) in
    let dm3 = update_value "$cid" tx.cid (update_value "$tx.body.cid" tx.cid dm2) in
    let dm4 =
      update_value "$world" world
        (update_value "$chain" chain (update_value "$author" author dm3)) in
    let dm5 =
      update_value "$receiver" tx.receiver (update_value "$tx.body.receiver" tx.receiver dm4) in
    let fee = int_text tx.fee in
    let dm6 = update_value "$fee" fee (update_value "$tx.body.fee" fee dm5) in
    let dm7 = update_value "$user" tx.user_id (update_value "$tx.user.id" tx.user_id dm6) in
    update_value "$tx.endorser.count" (to_string (length tx.endorsers))
      (set_endorsers 0 tx.endorsers (update_value "$tx.user.pk" tx.user_pk dm7))

unfoldable pub set_transaction : Tx → DataManager → SetTx
set_transaction tx dm =
    let parts = split tx.cid in
    if empty tx.cid || empty tx.receiver || empty tx.user_id || empty tx.txid
    then set_error "missing elements"
    else if ltb_ℤ tx.fee (pos min_user_fee)
    then set_error "less than minimum user fee"
    else on_option (get_elem? parts 1) no_part λ author.
      on_option (get_elem? parts 2) no_part λ chain.
        on_option (get_elem? parts 3) no_part λ world. set_ok (set_all tx author chain world dm)
