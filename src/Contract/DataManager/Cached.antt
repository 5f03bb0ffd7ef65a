-- ===== src/Contract/DataManager/Cached.antt =====
-- That the caches agree with the storage, as long as this does not change.
use gruut.Base.{
  ◌≡◌, refl, sym, ap, subst, ◌∙◌, inl, inr, String, Bool, true, false, Option, none, some, List, [],
  ◌∷◌, str_eq, eq_iff, if◌then◌else◌, at, on_option, insert_or_assign, at-insert_or_assign, arith,
  Bool-cases, Option-cases,
}
use gruut.Contract.Text.{empty}
use gruut.Contract.Datamap.{eval}
use gruut.Contract.DataManager.{
  Query, QueryResult, Storage, DataAttribute, DataManager, new_data_manager, clear, update_value,
  query_and_cache, rows, query_user_scope, query_contract_scope, parse_user_scope,
  parse_contract_scope, store_record, store_contract, contract_scope_record, user_scope_record,
  get_user_scope_record_by_name, get_user_scope_record_by_pid, find_user_scope_table_by_name,
  find_user_scope_table_by_pid, scope_rows,
}
use gruut.Contract.DataManager.Rows.{OwnPids, HasOwnPids, parse_user_scope-OwnPids}
use gruut.Contract.DataManager.Lookups.{
  get_world, get_chain, get_user_info, get_user_key_currency, get_scope_variables, parse_user_attr,
  no_scope, known_or_query, no_attributes, cached_variables, query_scope, scope_query,
}

-- Two queries have one key only if the storage answers them alike.
abbrev pub IsKey : Storage → Type 0
IsKey st = (q r : Query) → st.key q ≡ st.key r → st.read q ≡ st.read r

-- Each result that is kept for a query is what the storage answers to it, and no two rows that are
-- kept for a user and a variable have one pid.
pub record IsValid (st : Storage) (dm : DataManager) : Type 0 where
  pub results :
      (q : Query) (r : Option QueryResult) → at (st.key q) dm.query_cache ≡ some r → r ≡ st.read q
  pub pids : OwnPids dm

module _ (st : Storage) (key : IsKey st) where
  -- A query is answered as the storage answers it, from the cache or not.
  pub query_and_cache-read :
      (q : Query) (dm : DataManager) → IsValid st dm → (query_and_cache st q dm).0 ≡ st.read q
  unfolding query_and_cache
  query_and_cache-read q dm v = elim (Option-cases (at (st.key q) dm.query_cache)) [
    | inl e ↦ rw (e, query_and_cache) refl
    | inr (r, e) ↦ rw (e, query_and_cache) (v.results q r e)
  ]

  query_and_cache-IsValid :
      (q : Query) (dm : DataManager) → IsValid st dm → IsValid st (query_and_cache st q dm).1
  unfolding query_and_cache
  query_and_cache-IsValid q dm v = elim (Option-cases (at (st.key q) dm.query_cache)) [
    | inl e ↦ rw (e, query_and_cache) record { results = results; pids = v.pids }
    | inr (r, e) ↦ rw (e, query_and_cache) v
  ]
    where
      results :
          (p : Query) (r : Option QueryResult)
          → at (st.key p) (insert_or_assign (st.key q) (st.read q) dm.query_cache) ≡ some r
          → r ≡ st.read p
      results p r e =
          let is = at-insert_or_assign (st.key p) (st.key q) (st.read q) dm.query_cache in
          elim (Bool-cases (str_eq (st.key q) (st.key p))) [
            | inl f ↦
                let same : st.read q ≡ st.read p = key q p ((eq_iff (st.key q) (st.key p)).0 f) in
                let there =
                  is ∙ ap (λ b. if b then some (st.read q) else at (st.key p) dm.query_cache) f in
                let now : st.read q ≡ r = cc in sym now ∙ same
            | inr f ↦
                let there =
                  is ∙ ap (λ b. if b then some (st.read q) else at (st.key p) dm.query_cache) f in
                v.results p r (sym there ∙ e)
          ]

parse_user_scope-query_cache :
    (user_id : String) (rs : List (List (String × String))) (dm : DataManager)
    → (parse_user_scope user_id rs dm).1.query_cache ≡ dm.query_cache
unfolding parse_user_scope
parse_user_scope-query_cache user_id [] dm = refl
parse_user_scope-query_cache user_id (row ∷ rs) dm = ground (
  arith,
  parse_user_scope-query_cache user_id rs dm,
  parse_user_scope-query_cache user_id rs (store_record user_id (user_scope_record user_id row) dm),
)

-- A contract's rows change neither the results nor the rows of users.
parse_contract_scope-others :
    (cid : String) (rs : List (List (String × String))) (dm : DataManager)
    → ((parse_contract_scope cid rs dm).1.query_cache ≡ dm.query_cache)
      × ((parse_contract_scope cid rs dm).1.user_scope_table ≡ dm.user_scope_table)
unfolding parse_contract_scope
parse_contract_scope-others cid [] dm = (refl, refl)
parse_contract_scope-others cid (row ∷ rs) dm = ground (
  arith,
  parse_contract_scope-others cid rs dm,
  parse_contract_scope-others cid rs (store_contract cid (contract_scope_record cid row) dm),
)

module _ (st : Storage) (key : IsKey st) where
  query_user_scope-IsValid :
      (q : Query) (user_id : String) (dm : DataManager)
      → IsValid st dm
      → IsValid st (query_user_scope st q user_id dm).1
  unfolding query_user_scope
  query_user_scope-IsValid q user_id dm v =
      let (result, dm') = query_and_cache st q dm in
      let v' = query_and_cache-IsValid st key q dm v in
      record {
        results = λ p r e. v'.results p r (
            sym (ap (λ c. at (st.key p) c) (parse_user_scope-query_cache user_id (rows result) dm'))
            ∙ e);
        pids = parse_user_scope-OwnPids user_id (rows result) dm' v'.pids;
      }

  query_contract_scope-IsValid :
      (q : Query) (cid : String) (dm : DataManager)
      → IsValid st dm
      → IsValid st (query_contract_scope st q cid dm).1
  unfolding query_contract_scope
  query_contract_scope-IsValid q cid dm v =
      let (result, dm') = query_and_cache st q dm in
      let v' = query_and_cache-IsValid st key q dm v in
      let others = parse_contract_scope-others cid (rows result) dm' in
      record {
        results = λ p r e. v'.results p r (sym (ap (λ c. at (st.key p) c) others.0) ∙ e);
        pids = λ k. subst (λ t. HasOwnPids (scope_rows k t)) (sym others.1) (v'.pids k);
      }

-- What the runner and the handlers do with the data manager.
pub data Lookup : Type 0 where
  world : Lookup
  chain : Lookup
  user_info : String → Lookup
  key_currency : String → Lookup
  record_by_name : String → String → Lookup
  record_by_pid : String → String → String → Lookup
  scope_variables : String → String → String → Lookup
  update : String → String → Lookup
  clear_all : Lookup

abbrev pub perform : Storage → Lookup → DataManager → DataManager
perform st world dm = (get_world st dm).1
perform st chain dm = (get_chain st dm).1
perform st (user_info id) dm = (get_user_info st id dm).1
perform st (key_currency id) dm = (get_user_key_currency st id dm).1
perform st (record_by_name id name) dm = (get_user_scope_record_by_name st id name dm).1
perform st (record_by_pid id name pid) dm = (get_user_scope_record_by_pid st id name pid dm).1
perform st (scope_variables scope id name) dm = (get_scope_variables st scope id name dm).1
perform st (update k v) dm = update_value k v dm
perform st clear_all dm = clear dm

unfoldable pub look_up_all : Storage → List Lookup → DataManager → DataManager
look_up_all st [] dm = dm
look_up_all st (l ∷ ls) dm = look_up_all st ls (perform st l dm)

no_rows-HasOwnPids : (key : String) → HasOwnPids (scope_rows key [])
unfolding at
no_rows-HasOwnPids key = tt

-- Of two ways to go on, and of those for a key that is there or not.
module _ {A : Type 0} (st : Storage) where
  if-IsValid :
      (b : Bool) (x y : A × DataManager)
      → IsValid st x.1
      → IsValid st y.1
      → IsValid st (if b then x else y).1
  if-IsValid true x y hx hy = hx
  if-IsValid false x y hx hy = hy

  elim-IsValid :
      {B : Type 0} (o : Option B) (x : A × DataManager) (y : B → A × DataManager)
      → IsValid st x.1
      → ((b : B) → IsValid st (y b).1)
      → IsValid st (on_option o x y).1
  elim-IsValid none x y hx hy = hx
  elim-IsValid (some b) x y hx hy = hy b

parse_user_attr-IsValid :
    (st : Storage) (id : String) (rs : List (List (String × String))) (dm : DataManager)
    → IsValid st dm
    → IsValid st (parse_user_attr id rs dm).1
parse_user_attr-IsValid st id [] dm v = v
parse_user_attr-IsValid st id (row ∷ rs) dm v = record { results = v.results; pids = v.pids }

module _ (st : Storage) (key : IsKey st) where
  perform-IsValid : (l : Lookup) (dm : DataManager) → IsValid st dm → IsValid st (perform st l dm)
  unfolding get_user_info get_user_key_currency get_user_scope_record_by_name
      get_user_scope_record_by_pid get_scope_variables clear
  perform-IsValid world dm v = query_and_cache-IsValid st key _ dm v
  perform-IsValid chain dm v = query_and_cache-IsValid st key _ dm v
  perform-IsValid (user_info id) dm v = if-IsValid st (empty id) _ _ v (
      elim-IsValid st (at (eval dm.tx_datamap id) dm.user_attr_table) _ _
        (parse_user_attr-IsValid st _ _ _ (query_and_cache-IsValid st key _ dm v)) (λ r. v))
  perform-IsValid (key_currency id) dm v =
      if-IsValid st (empty id) _ _ v
        (query_user_scope-IsValid st key _ (eval dm.tx_datamap id) dm v)
  perform-IsValid (record_by_name id name) dm v = if-IsValid st (str_eq name "*") _ _ v (
      elim-IsValid st (find_user_scope_table_by_name id name dm) _ _
        (query_user_scope-IsValid st key _ id dm v) (λ r. v))
  perform-IsValid (record_by_pid id name pid) dm v =
      elim-IsValid st (find_user_scope_table_by_pid id name pid dm) _ _
        (query_user_scope-IsValid st key _ id dm v) (λ r. v)
  perform-IsValid (scope_variables scope id name) dm v =
      if-IsValid {A = List DataAttribute} st (no_scope scope id name) ([], dm)
        (known_or_query st scope id name dm) v
        (if-IsValid {A = List DataAttribute} st (no_attributes (cached_variables scope id name dm))
          (query_scope st scope id name dm) (cached_variables scope id name dm, dm)
          (if-IsValid {A = List DataAttribute} st (str_eq scope "user")
            (query_user_scope st (scope_query "user.scope.get" id name) id dm)
            (query_contract_scope st (scope_query "contract.scope.get" id name) id dm)
            (query_user_scope-IsValid st key (scope_query "user.scope.get" id name) id dm v)
            (query_contract_scope-IsValid st key (scope_query "contract.scope.get" id name) id dm
              v))
          v)
  perform-IsValid (update k w) dm v = record { results = v.results; pids = v.pids }
  perform-IsValid clear_all dm v = record { results = v.results; pids = no_rows-HasOwnPids }

  -- As long as the storage stays as it is: after any look-ups, updates and resets of a valid data
  -- manager, each result that is kept is what the storage answers, and no two rows that are kept for
  -- a user and a variable have one pid.
  pub look_up_all-IsValid :
      (ls : List Lookup) (dm : DataManager) → IsValid st dm → IsValid st (look_up_all st ls dm)
  unfolding look_up_all
  look_up_all-IsValid [] dm v = v
  look_up_all-IsValid (l ∷ ls) dm v =
      look_up_all-IsValid ls (perform st l dm) (perform-IsValid l dm v)

  pub new_data_manager-IsValid : IsValid st new_data_manager
  unfolding at
  new_data_manager-IsValid = record { results = λ q r e. cc e; pids = no_rows-HasOwnPids }
