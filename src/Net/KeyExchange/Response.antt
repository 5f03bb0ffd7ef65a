-- ===== src/Net/KeyExchange/Response.antt =====
-- What an answer to the response of a user needs, and what it leaves in the temporary entry.
use gruut.Base.{◌≢◌, ◌≤◌, ◌≡◌, refl, ap, ◌∙◌, inl, inr, String, true, false, [], arith}
use gruut.Base.Int.{sub64}
use gruut.Net.Message.{InNetMsg, OutNetMsg, ok, inner_text}
use gruut.Net.Signature.{Services, verify_signature}
use gruut.Net.KeyExchange.{
  UserPoolManager, JoinTempData, Outside, temp_of, update_temp, has_temp, handle_response_1,
  no_bytes,
}
use gruut.Net.KeyExchange.Entry.{temp_of-update_temp, Result-cases}

module _ (sv : Services) (out : Outside) (msg : InNetMsg) (m m' : UserPoolManager) where
  -- The certificate of the message, verified, and the key shared with the point that it has, not empty.
  abbrev pub IsKept : Type 0
  IsKept =
      (cert x y : String) × (inner_text msg.body "user" "pk" ≡ ok cert)
      × (inner_text msg.body "dh" "x" ≡ ok x)
      × (inner_text msg.body "dh" "y" ≡ ok y)
      × (sv.verify_cert cert sv.auth_cert ≡ true)
      × (out.shared_secret_key x y ≢ [])
      × (temp_of msg.sender_id m' ≡ record (temp_of msg.sender_id m) {
        user_pk = cert;
        shared_sk = out.shared_secret_key x y;
      })

  module _ (cert x y : String) where
    certify : JoinTempData → JoinTempData
    certify t = record t { user_pk = cert }

    share : JoinTempData → JoinTempData
    share t = record t { shared_sk = out.shared_secret_key x y }

    -- The manager that an answer leaves.
    abbrev final : UserPoolManager
    final =
        update_temp msg.sender_id share
          (update_temp msg.sender_id certify (update_temp msg.sender_id (λ t. t) m))

    temp_of-final : temp_of msg.sender_id final ≡ share (certify (temp_of msg.sender_id m))
    temp_of-final =
        let late = update_temp msg.sender_id (λ t. t) m in
        temp_of-update_temp msg.sender_id share (update_temp msg.sender_id certify late)
        ∙ ap share (
            temp_of-update_temp msg.sender_id certify late
            ∙ ap certify (temp_of-update_temp msg.sender_id (λ t. t) m))

    answered :
        (reply : OutNetMsg)
        → handle_response_1 sv out msg m ≡ (ok reply, m')
        → inner_text msg.body "user" "pk" ≡ ok cert
        → inner_text msg.body "dh" "x" ≡ ok x
        → inner_text msg.body "dh" "y" ≡ ok y
        → (sv.verify_cert cert sv.auth_cert ≡ true)
          × (no_bytes (out.shared_secret_key x y) ≡ false)
          × (m' ≡ final)
    unfolding handle_response_1 certify share
    answered reply h e f g = (ground arith, ground arith, ground arith)

    answered-IsKept :
        (reply : OutNetMsg)
        → handle_response_1 sv out msg m ≡ (ok reply, m')
        → inner_text msg.body "user" "pk" ≡ ok cert
        → inner_text msg.body "dh" "x" ≡ ok x
        → inner_text msg.body "dh" "y" ≡ ok y
        → IsKept
    unfolding certify share
    answered-IsKept reply h e f g =
        let (verified, some_key, last) = answered reply h e f g in
        (
          cert,
          x,
          y,
          e,
          f,
          g,
          verified,
          (λ i. cc (ap no_bytes i ∙ refl)),
          ap (temp_of msg.sender_id) last ∙ temp_of-final,
        )

  -- What an answer to the response leaves in the temporary entry of the sender.
  kept : (reply : OutNetMsg) → handle_response_1 sv out msg m ≡ (ok reply, m') → IsKept
  unfolding handle_response_1
  kept reply h = elim (Result-cases (inner_text msg.body "user" "pk")) [
    | inl (t, e) ↦ ground arith
    | inr (cert, e) ↦ elim (Result-cases (inner_text msg.body "dh" "x")) [
      | inl (t, f) ↦ ground arith
      | inr (x, f) ↦ elim (Result-cases (inner_text msg.body "dh" "y")) [
        | inl (t, g) ↦ ground arith
        | inr (y, g) ↦ answered-IsKept cert x y reply h e f g
      ]
    ]
  ]

-- The response is answered only if its sender has begun to join, at most 10 units of the clock ago,
-- its signature is verified with the nonce that was sent, and the certificate that the message has is;
-- from then on its temporary entry is what it was but for that certificate and the key shared with the
-- point that the message has, which is not empty.
pub handle_response_1-checked :
    (sv : Services) (out : Outside) (msg : InNetMsg) (m m' : UserPoolManager) (reply : OutNetMsg)
    → handle_response_1 sv out msg m ≡ (ok reply, m')
    → (has_temp msg.sender_id m ≡ true)
      × (sub64 out.now (temp_of msg.sender_id m).start_time ≤ 10)
      × (verify_signature sv (temp_of msg.sender_id m).merger_nonce msg.body ≡ ok true)
      × IsKept sv out msg m m'
unfolding handle_response_1
handle_response_1-checked sv out msg m m' reply h =
    let same = temp_of-update_temp msg.sender_id (λ t. t) m in
    (ground arith, ground arith, ground arith, kept sv out msg m m' reply h)
