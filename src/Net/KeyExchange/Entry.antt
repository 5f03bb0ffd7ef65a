-- ===== src/Net/KeyExchange/Entry.antt =====
-- Who enters the pool of users, and on what.
use gruut.Base.{
  ◌≡◌, refl, ap, ◌∙◌, inl, inr, String, true, false, some, at-insert_or_assign_self, ◌⊎◌,
  if◌then◌else◌, arith, Bool-cases, Option-cases, ◌==◌, ltb,
}
use gruut.Base.Int.{sub64}
use gruut.Net.Message.{
  InNetMsg, OutNetMsg, get_text, Result, ok, raise, Thrown, msg_join, msg_response_1, msg_success,
}
use gruut.Net.UserPool.{push_user}
use gruut.Net.Signature.{Services}
use gruut.Net.KeyExchange.{
  UserPoolManager, JoinTempData, temp_or_new, Outside, temp_of, handle_join, handle_response_1,
  handle_success, handle_msg, mode_of, update_temp,
}

pub temp_of-update_temp :
    (id : String) (f : JoinTempData → JoinTempData) (m : UserPoolManager)
    → temp_of id (update_temp id f m) ≡ f (temp_of id m)
temp_of-update_temp id f m =
    ap temp_or_new (at-insert_or_assign_self id (f (temp_of id m)) m.temp_user_pool)

pub Result-cases {ℓ} :
    {A : Type ℓ} (r : Result A) → ((e : Thrown) × (r ≡ raise e)) ⊎ ((a : A) × (r ≡ ok a))
Result-cases (ok a) = inr (a, refl)
Result-cases (raise e) = inl (e, refl)

module _ (sv : Services) (out : Outside) (msg : InNetMsg) where
  -- What a message has done to the users, by how its handling ended.
  abbrev pub Outcome : UserPoolManager → Result OutNetMsg × UserPoolManager → Type 0
  Outcome m (raise e, m') = m'.users ≡ m.users
  Outcome m (ok reply, m') =
      if msg.type == msg_success
      then ((mode : String) × (get_text msg.body "mode" ≡ ok (some mode))
          × (m'.users
              ≡ push_user sv.decode58 msg.sender_id (temp_of msg.sender_id m).shared_sk
                  (temp_of msg.sender_id m).user_pk (mode_of mode) m.users))
      else m'.users ≡ m.users

  handle_join-users : (m : UserPoolManager) → (handle_join sv out msg m).1.users ≡ m.users
  unfolding handle_join
  handle_join-users m = ground arith

  handle_response_1-users :
      (m : UserPoolManager) → (handle_response_1 sv out msg m).1.users ≡ m.users
  unfolding handle_response_1
  handle_response_1-users m = ground arith

  handle_success-Outcome :
      (m : UserPoolManager)
      → (msg.type == msg_success) ≡ true
      → Outcome m (handle_success sv out msg m)
  unfolding handle_success
  handle_success-Outcome m h =
      let same = temp_of-update_temp msg.sender_id (λ t. t) m in
      elim (Result-cases (get_text msg.body "mode")) [
        | inl (t, e) ↦ rw e (ground arith)
        | inr (o, e) ↦ elim (Option-cases o) [
          | inl none_there ↦ rw (e, none_there) (ground arith)
          | inr (t, f) ↦
              let there : get_text msg.body "mode" ≡ ok (some t) = e ∙ ap ok f in
              elim (Bool-cases (ltb 10 (sub64 out.now (temp_of msg.sender_id m).start_time))) [
                | inl late ↦ rw late refl
                | inr on_time ↦ rw (on_time, e, f, h, same) (t, there, refl)
              ]
        ]
      ]

  unchanged-Outcome :
      (m : UserPoolManager) (r : Result OutNetMsg × UserPoolManager)
      → (msg.type == msg_success) ≡ false
      → r.1.users ≡ m.users
      → Outcome m r
  unchanged-Outcome m (raise e, m') h u = u
  unchanged-Outcome m (ok reply, m') h u = rw h u

  handle_msg-users :
      (m : UserPoolManager)
      → (msg.type == msg_success) ≡ false
      → (handle_msg sv out msg m).1.users ≡ m.users
  unfolding handle_msg
  handle_msg-users m h = ground (arith, handle_join-users m, handle_response_1-users m)

  -- A message that fails, or is not one of success, leaves the users alone; a success message that is
  -- answered adds its sender, or replaces it, with the key and the certificate that stand in its
  -- temporary entry and the mode that the message names.
  pub handle_msg-Outcome : (m : UserPoolManager) → Outcome m (handle_msg sv out msg m)
  unfolding handle_msg
  handle_msg-Outcome m = elim (Bool-cases (msg.type == msg_success)) [
    | inl s ↦
        let no_join : (msg.type == msg_join) ≡ false = ground arith in
        let no_response : (msg.type == msg_response_1) ≡ false = ground arith in
        rw (no_join, no_response, s) (handle_success-Outcome m s)
    | inr s ↦ unchanged-Outcome m (handle_msg sv out msg m) s (handle_msg-users m s)
  ]
