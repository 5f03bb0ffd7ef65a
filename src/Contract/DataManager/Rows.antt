-- ===== src/Contract/DataManager/Rows.antt =====
-- The rows that are kept for a user and a variable.
use Prim.Native.String.{◌++◌}
use gruut.Base.{
  ◌≡◌, refl, sym, inl, inr, String, Bool, false, List, [], ◌∷◌, str_eq, eq_iff, any,
  at-insert_or_assign, arith, Bool-cases,
}
use gruut.Contract.Text.{empty}
use gruut.Contract.DataManager.{
  UserScopeRecord, DataManager, update_records, scope_rows, store_record, user_scope_record,
  parse_user_scope,
}

abbrev pub has_pid : String → List UserScopeRecord → Bool
has_pid pid rs = any (λ (r : UserScopeRecord). str_eq r.pid pid) rs

-- No two rows have one pid.
abbrev pub HasOwnPids : List UserScopeRecord → Type 0
HasOwnPids [] = Unit
HasOwnPids (r ∷ rs) = (has_pid r.pid rs ≡ false) × HasOwnPids rs

has_pid-update_records :
    (pid : String) (r : UserScopeRecord) (ss : List UserScopeRecord)
    → has_pid pid ss ≡ false
    → str_eq r.pid pid ≡ false
    → has_pid pid (update_records r ss) ≡ false
unfolding update_records
has_pid-update_records pid r [] h ne = rw ne refl
has_pid-update_records pid r (s ∷ ss) h ne = ground (arith, has_pid-update_records pid r ss)

update_records-HasOwnPids :
    (r : UserScopeRecord) (ss : List UserScopeRecord)
    → HasOwnPids ss
    → HasOwnPids (update_records r ss)
unfolding update_records
update_records-HasOwnPids r [] h = (refl, tt)
update_records-HasOwnPids r (s ∷ ss) h = elim (Bool-cases (str_eq s.pid r.pid)) [
  | inl e ↦ rw e h
  | inr e ↦
      rw e (has_pid-update_records s.pid r ss h.0 (other e), update_records-HasOwnPids r ss h.1)
]
  where
    other : str_eq s.pid r.pid ≡ false → str_eq r.pid s.pid ≡ false
    other e = elim (Bool-cases (str_eq r.pid s.pid)) [
      | inl f ↦ let same = (eq_iff s.pid r.pid).1 (sym ((eq_iff r.pid s.pid).0 f)) in cc
      | inr f ↦ f
    ]

-- So for every user and variable.
abbrev pub OwnPids : DataManager → Type 0
OwnPids dm = (key : String) → HasOwnPids (scope_rows key dm.user_scope_table)

store_record-OwnPids :
    (user_id : String) (r : UserScopeRecord) (dm : DataManager)
    → OwnPids dm
    → OwnPids (store_record user_id r dm)
store_record-OwnPids user_id r dm h key =
    let scope_key = user_id ++ r.var_name in
    let new = update_records r (scope_rows scope_key dm.user_scope_table) in
    let is = at-insert_or_assign key scope_key new dm.user_scope_table in
    elim (Bool-cases (str_eq scope_key key)) [
      | inl e ↦
          rw (is, e)
            (update_records-HasOwnPids r (scope_rows scope_key dm.user_scope_table) (h scope_key))
      | inr e ↦ rw (is, e) (h key)
    ]

pub parse_user_scope-OwnPids :
    (user_id : String) (rs : List (List (String × String))) (dm : DataManager)
    → OwnPids dm
    → OwnPids (parse_user_scope user_id rs dm).1
unfolding parse_user_scope
parse_user_scope-OwnPids user_id [] dm h = h
parse_user_scope-OwnPids user_id (row ∷ rs) dm h =
    let r = user_scope_record user_id row in
    let stored =
      parse_user_scope-OwnPids user_id rs (store_record user_id r dm)
        (store_record-OwnPids user_id r dm h) in
    elim (Bool-cases (empty r.var_name)) [
      | inl e ↦ rw e (parse_user_scope-OwnPids user_id rs dm h)
      | inr e ↦ elim (Bool-cases (empty r.tag)) [
        | inl f ↦ rw (e, f) stored
        | inr f ↦ rw (e, f) stored
      ]
    ]
