-- ===== src/Net/Service/Guarded.antt =====
-- What the messages of the two services need before they have an effect.
use gruut.Base.{
  ◌≡◌, refl, ◌⊎◌, inl, inr, String, Bool, true, false, not, ◌&&◌, some, Bytes, Bool-cases, ◌==◌,
  arith,
}
use gruut.Net.Message.{InNetMsg, OutNetMsg, Result, ok, raise, get_text, msg_success}
use gruut.Net.Signature.{Services}
use gruut.Net.UserPool.{get_hmac_key, push_user}
use gruut.Net.KeyExchange.{
  UserPoolManager, Outside, handle_msg, temp_of, mode_of, get_temp_hmac_key,
}
use gruut.Net.KeyExchange.Entry.{Outcome, handle_msg-Outcome}
use gruut.Net.Packer.{Codec, parse_message, Parsed, out_of_range, refused, parsed}
use gruut.Net.Validator.{validate}
use gruut.Net.Service.{
  Effects, publication, ServiceAnswer, undefined, answer, no_effects, handle_with_pool,
  needs_context, needs_pool, verify_hmac, value_or_empty, reply_handled, forward, exchange,
  key_ex_service,
}

-- What holds of the state that an answer leaves, if it has one.
abbrev pub Leaves : (UserPoolManager → Type 0) → ServiceAnswer → Type 0
Leaves P undefined = Unit
Leaves P (answer r e m) = P m

module _ (c : Codec) (verify : Bytes → Bytes → Bytes → Bool) (sv : Services) (out : Outside) where
  -- What has happened to the users at the end of a call of the service for the exchange of keys.
  abbrev pub Joined : Bytes → UserPoolManager → UserPoolManager → Type 0
  Joined packed_msg m m' =
      (msg : InNetMsg) × (parse_message c packed_msg ≡ parsed msg)
      × (validate msg.body ≡ true)
      × ((msg.type == msg_success) ≡ true)
      × (verify_hmac verify packed_msg (value_or_empty (get_temp_hmac_key msg.sender_id m)) ≡ true)
      × ((mode : String) × (get_text msg.body "mode" ≡ ok (some mode))
          × (m'.users
              ≡ push_user sv.decode58 msg.sender_id (temp_of msg.sender_id m).shared_sk
                  (temp_of msg.sender_id m).user_pk (mode_of mode) m.users))

  abbrev pub Kept : Bytes → UserPoolManager → UserPoolManager → Type 0
  Kept packed_msg m m' = (m'.users ≡ m.users) ⊎ Joined packed_msg m m'

  module _ (packed_msg : Bytes) (msg : InNetMsg) (m : UserPoolManager)
      (parses : parse_message c packed_msg ≡ parsed msg) (valid : validate msg.body ≡ true) where
    abbrev key : Bytes
    key = value_or_empty (get_temp_hmac_key msg.sender_id m)

    handle_msg-Kept :
        (msg.type == msg_success) && not (verify_hmac verify packed_msg key) ≡ false
        → Kept packed_msg m (handle_msg sv out msg m).1
    handle_msg-Kept allowed = go (handle_msg sv out msg m) (handle_msg-Outcome sv out msg m)
      where
        go :
            (r : Result OutNetMsg × UserPoolManager)
            → Outcome sv out msg m r
            → Kept packed_msg m r.1
        go (raise e, m') o = inl o
        go (ok reply, m') o = elim (Bool-cases (msg.type == msg_success)) [
          | inl h ↦ inr (msg, parses, valid, h, (ground arith), (rw h at o))
          | inr h ↦ inl (rw h at o)
        ]

    handle_with_pool-Kept :
        (msg.type == msg_success) && not (verify_hmac verify packed_msg key) ≡ false
        → Leaves (Kept packed_msg m) (reply_handled c msg (handle_with_pool sv out msg m))
    unfolding handle_with_pool
    handle_with_pool-Kept allowed = elim (Bool-cases (needs_context msg.type)) [
      | inl h ↦ rw h tt
      | inr h ↦ elim (Bool-cases (needs_pool msg.type)) [
        | inl g ↦ rw (h, g) (handle_msg-Kept allowed)
        | inr g ↦ rw (h, g) (inl refl)
      ]
    ]

  exchange-Kept :
      (packed_msg : Bytes) (msg : InNetMsg) (m : UserPoolManager)
      → parse_message c packed_msg ≡ parsed msg
      → Leaves (Kept packed_msg m) (exchange c verify sv out packed_msg msg m)
  unfolding exchange
  exchange-Kept packed_msg msg m parses = elim (Bool-cases (validate msg.body)) [
    | inr bad ↦ rw bad (inl refl)
    | inl valid ↦
        elim (Bool-cases (
          (msg.type == msg_success)
          && not (
              verify_hmac verify packed_msg
                (value_or_empty (get_temp_hmac_key msg.sender_id m))))) [
                  | inl wrong ↦ rw (valid, wrong) (inl refl)
                  | inr allowed ↦
                      rw (valid, allowed)
                        (handle_with_pool-Kept packed_msg msg m parses valid allowed)
                ]
  ]

  -- The service for the exchange of keys leaves the users alone, whatever the bytes of a request, unless
  -- these parse to a valid success message whose code of authentication is verified with the shared
  -- key of its sender's temporary entry (an empty key if there is none): then its sender is pushed, with
  -- the key and the certificate of that entry and the mode that the message names.
  pub key_ex_service-Joined :
      (monitoring : Bool) (packed_msg : Bytes) (m : UserPoolManager)
      → Leaves (Kept packed_msg m) (key_ex_service c verify sv out monitoring packed_msg m)
  unfolding key_ex_service
  key_ex_service-Joined true packed_msg m = inl refl
  key_ex_service-Joined false packed_msg m = go (parse_message c packed_msg) refl
    where
      go :
          (r : Parsed)
          → parse_message c packed_msg ≡ r
          → Leaves (Kept packed_msg m) (key_ex_service c verify sv out false packed_msg m)
      go out_of_range e = rw (key_ex_service, e) tt
      go (refused err) e = rw (key_ex_service, e) (inl refl)
      go (parsed msg) e = rw (key_ex_service, e) (exchange-Kept packed_msg msg m e)

-- What holds of the effects and the state of an answer, if it has them.
abbrev pub Ends : (Effects → UserPoolManager → Type 0) → ServiceAnswer → Type 0
Ends P undefined = Unit
Ends P (answer r e m) = P e m

module _ (c : Codec) (verify : Bytes → Bytes → Bytes → Bool) where
  -- What a message of a user has done: it was valid, with a code that is verified with the key of its sender
  -- (an empty key if the sender is not in the pool), and was published as its type says and, if it is
  -- a transaction, sent on.
  abbrev pub Served : Bytes → UserPoolManager → Effects → Type 0
  Served packed_msg m e =
      (msg : InNetMsg) × (parse_message c packed_msg ≡ parsed msg)
      × (validate msg.body ≡ true)
      × (verify_hmac verify packed_msg (value_or_empty (get_hmac_key msg.sender_id m.users)) ≡ true)
      × (e.published ≡ (publication msg).published)
      × (e.sent ≡ forward c msg)

  abbrev pub OnlyServed : Bytes → UserPoolManager → Effects → UserPoolManager → Type 0
  OnlyServed packed_msg m e m' = (m' ≡ m) × ((e ≡ no_effects) ⊎ Served packed_msg m e)
