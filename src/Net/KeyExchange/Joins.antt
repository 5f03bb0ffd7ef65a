-- ===== src/Net/KeyExchange/Joins.antt =====
-- What a sequence of messages does to the pool of users.
use gruut.Base.{
  ℕ, length, ◌+◌, ◌≤◌, ◌<◌, ◌^◌, ◌≡◌, refl, sym, ap, subst, ◌∙◌, String, Bool, true, false, none,
  some, List, [], ◌∷◌, eq_iff, if◌then◌else◌, at, arith, ◌==◌, ltb,
}
use gruut.Base.Int.{sub64, sub64-eq-sub}
use gruut.Net.Message.{
  text, object, no_fields, field, InNetMsg, OutNetMsg, Result, ok, raise, msg_join, msg_success,
  get_text,
}
use gruut.Net.UserPool.{UserPool, push_user}
use gruut.Net.UserPool.Counted.{IsCounted, push_user-IsCounted, erase_user-IsCounted}
use gruut.Net.Signature.{Services}
use gruut.Net.Builder.{build_accept}
use gruut.Net.KeyExchange.{
  UserPoolManager, JoinTempData, Outside, temp_of, temp_or_new, no_data, update_temp, is_joinable,
  handle_join, handle_success, handle_msg, mode_of, remove_user, remove_temp_user,
}
use gruut.Net.KeyExchange.Entry.{Outcome, temp_of-update_temp, handle_msg-Outcome}

-- A message with what its handling finds outside, or the end of a user's connection.
pub data Event : Type 0 where
  receive : Outside → InNetMsg → Event
  disconnect : String → Event

module _ (sv : Services) where
  unfoldable pub after : List Event → UserPoolManager → UserPoolManager
  after [] m = m
  after (receive out msg ∷ es) m = after es (handle_msg sv out msg m).1
  after (disconnect id ∷ es) m = after es (remove_temp_user id (remove_user id m))

  IsCounted-later : (b : ℕ) (pool : UserPool) → IsCounted b pool → IsCounted (b + 1) pool
  IsCounted-later b pool (d, (n, e, h, top)) = (d, (n, e, h, omega arith))

  Outcome-IsCounted :
      (out : Outside) (msg : InNetMsg) (b : ℕ) (m : UserPoolManager)
      (r : Result OutNetMsg × UserPoolManager)
      → Outcome sv out msg m r
      → IsCounted b m.users
      → b + 1 < 2 ^ 31
      → IsCounted (b + 1) r.1.users
  Outcome-IsCounted out msg b m (raise e, m') o h room =
      subst (IsCounted (b + 1)) (sym o) (IsCounted-later b m.users h)
  Outcome-IsCounted out msg b m (ok reply, m') o h room = by_type (msg.type == msg_success) o
    where
      by_type :
          (t : Bool)
          → (if t
              then ((mode : String) × (get_text msg.body "mode" ≡ ok (some mode))
                  × (m'.users
                      ≡ push_user sv.decode58 msg.sender_id
                          (temp_of msg.sender_id m).shared_sk
                          (temp_of msg.sender_id m).user_pk
                          (mode_of mode)
                          m.users))
              else m'.users ≡ m.users)
          → IsCounted (b + 1) m'.users
      by_type true (mode, e, u) = subst (IsCounted (b + 1)) (sym u) (
          push_user-IsCounted sv.decode58 msg.sender_id (temp_of msg.sender_id m).shared_sk
            (temp_of msg.sender_id m).user_pk (mode_of mode) b m.users h room)
      by_type false u = subst (IsCounted (b + 1)) (sym u) (IsCounted-later b m.users h)

  -- Whatever messages arrive and connections end, no id has two entries among the users, and the
  -- number of signers is never below that of the signers in the pool, nor negative, if it was so before
  -- and the number plus that of the events stays below 2 ^ 31; it grows by at most one at each event.
  pub after-IsCounted :
      (es : List Event) (b : ℕ) (m : UserPoolManager)
      → IsCounted b m.users
      → b + length es < 2 ^ 31
      → IsCounted (b + length es) (after es m).users
  unfolding after remove_user remove_temp_user
  after-IsCounted [] b m h room = subst (λ n. IsCounted n m.users) (omega arith) h
  after-IsCounted (receive out msg ∷ es) b m h room =
      let m' = (handle_msg sv out msg m).1 in
      subst (λ n. IsCounted n (after es m').users) (omega arith)
        (after-IsCounted es (b + 1) m'
          (Outcome-IsCounted out msg b m (handle_msg sv out msg m) (handle_msg-Outcome sv out msg m)
            h (omega arith))
          (omega arith))
  after-IsCounted (disconnect id ∷ es) b m h room =
      let m' = remove_temp_user id (remove_user id m) in
      subst (λ n. IsCounted n (after es m').users) (omega arith)
        (after-IsCounted es (b + 1) m'
          (IsCounted-later b m'.users (erase_user-IsCounted id b m.users h)) (omega arith))

abbrev pub join_of : String → InNetMsg
join_of id = record {
  type = msg_join;
  body = object (field "user" (text id) no_fields);
  sender_id = id;
}

abbrev pub success_of : String → String → InNetMsg
success_of id mode = record {
  type = msg_success;
  body = object (field "mode" (text mode) no_fields);
  sender_id = id;
}

module _ (sv : Services) (out : Outside) (id : String) where
  -- What the temporary entry of a user is after its join message.
  joined : UserPoolManager → JoinTempData
  joined m = record (temp_of id m) { merger_nonce = sv.encode64 out.random; start_time = out.now }

  handle_join-joined :
      (m : UserPoolManager)
      → is_joinable m ≡ true
      → let m' = (handle_msg sv out (join_of id) m).1 in
        (temp_of id m' ≡ joined m) × (m'.users ≡ m.users)
  unfolding handle_msg handle_join joined
  handle_join-joined m j =
      let first = λ (t : JoinTempData). record t { start_time = out.now } in
      let second = λ (t : JoinTempData). record t { merger_nonce = sv.encode64 out.random } in
      rw (j, (eq_iff id id).1 refl)
        (
          temp_of-update_temp id second (update_temp id first m)
              ∙ ap second (temp_of-update_temp id first m),
          refl,
        )

  handle_success-accepts :
      (mode : String) (m : UserPoolManager)
      → ltb 10 (sub64 out.now (temp_of id m).start_time) ≡ false
      → let (reply, m') = handle_msg sv out (success_of id mode) m in
        (reply ≡ ok (build_accept out.now_text sv.my_id id))
        × (m'.users
            ≡ push_user sv.decode58 id
                (temp_of id m).shared_sk
                (temp_of id m).user_pk
                (mode_of mode)
                m.users)
  unfolding handle_msg handle_success
  handle_success-accepts mode m h =
      let same = temp_of-update_temp id (λ t. t) m in rw (h, same) (refl, refl)

-- A user that sends the join message, if the pool takes users and the id has no temporary entry, and
-- then, at most 10 units of the clock later, the success message, is accepted with an empty key and no
-- certificate: no signature has been verified.
pub join-success :
    (sv : Services) (before later : Outside) (id mode : String) (m : UserPoolManager)
    → is_joinable m ≡ true
    → at id m.temp_user_pool ≡ none
    → before.now ≤ later.now
    → later.now ≤ before.now + 10
    → later.now < 2 ^ 64
    → let (reply, m') =
        handle_msg sv later (success_of id mode) (handle_msg sv before (join_of id) m).1 in
      (reply ≡ ok (build_accept later.now_text sv.my_id id))
      × (m'.users ≡ push_user sv.decode58 id [] "" (mode_of mode) m.users)
unfolding joined
join-success sv before later id mode m j a le soon small =
    let m1 = (handle_msg sv before (join_of id) m).1 in
    let (t, u) = handle_join-joined sv before id m j in
    let fresh : temp_of id m ≡ no_data = ap temp_or_new a in
    let started : (temp_of id m1).start_time ≡ before.now = ap (λ t. t.start_time) t in
    let no_key : (temp_of id m1).shared_sk ≡ [] =
      ap (λ t. t.shared_sk) t ∙ ap (λ t. t.shared_sk) fresh in
    let no_cert : (temp_of id m1).user_pk ≡ "" =
      ap (λ t. t.user_pk) t ∙ ap (λ t. t.user_pk) fresh in
    let wait = sub64-eq-sub later.now before.now le small in
    let on_time : ltb 10 (sub64 later.now (temp_of id m1).start_time) ≡ false =
      rw started (ground arith) in
    let (reply, users) = handle_success-accepts sv later id mode m1 on_time in
    (reply, users ∙ rw (no_key, no_cert, u) refl)
