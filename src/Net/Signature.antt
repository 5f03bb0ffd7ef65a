-- ===== src/Net/Signature.antt =====
-- The signatures of a key exchange: verifySignature and signMessage of
-- src/plugins/net_plugin/include/user_pool_manager.hpp. Cryptography and encodings are parameters.
use gruut.Base.{String, Bool, false, Option, none, some, [], Bytes}
use gruut.Net.Message.{Json, Result, ok, get_text, get_json, ◌>>=◌}

-- What a key exchange uses of other code, and the node's own identity in base 58. The bytes of a
-- signature are a String, as decodeBase<64> gives them.
pub record Services : Type 0 where
  pub encode64 : String → String
  pub decode64 : String → String
  pub decode58 : String → String
  -- BytesBuilder: what the bytes so far become
  pub append_base64 : String → Bytes → Bytes
  pub append_hex : String → Bytes → Bytes
  pub append_dec : String → Bytes → Bytes
  -- ECDSA::doVerify and ECDSA::doSign
  pub do_verify : String → Bytes → String → Bool
  pub do_sign : String → Bytes → String → String
  -- CertVerifier::doVerify
  pub verify_cert : String → String → Bool
  pub auth_cert : String
  pub my_id : String

module _ {ℓ κ} {A : Type ℓ} {B : Type κ} where
  abbrev both : Option A → Option B → Option (A × B)
  both none b = none
  both (some x) none = none
  both (some x) (some y) = some (x, y)

module _ (sv : Services) where
  unfoldable pub signed_bytes : String → String → String → String → String → Bytes
  signed_bytes mn sn dhx dhy timestamp =
      sv.append_dec timestamp
        (sv.append_hex dhy (sv.append_hex dhx (sv.append_base64 sn (sv.append_base64 mn []))))

  abbrev verify_parts : String → (Json × String) × (String × Json) → Result Bool
  verify_parts mn ((dh, sn), (timestamp, user_info)) = do
    dhx ← get_text dh "x"
    dhy ← get_text dh "y"
    user_pk ← get_text user_info "pk"
    user_b64_sig ← get_text user_info "sig"
    elim (both (both dhx dhy) (both user_pk user_b64_sig)) [
      | none ↦ ok false
      | some ((x, y), (pk, sig)) ↦
          ok (sv.do_verify pk (signed_bytes mn sn x y timestamp) (sv.decode64 sig))
    ]

  -- The nonce is the one of temp_user_pool for the sender.
  unfoldable pub verify_signature : String → Json → Result Bool
  verify_signature mn msg_body = do
    sn ← get_text msg_body "un"
    timestamp ← get_text msg_body "time"
    let dh = get_json msg_body "dh"
    let user_info = get_json msg_body "user"
    elim (both (both dh sn) (both timestamp user_info)) [
      | none ↦ ok false
      | some parts ↦ verify_parts mn parts
    ]

  abbrev pub sign_message : String → String → String → String → String → String → String → String
  sign_message timestamp mn sn dhx dhy sk_pem sk_pass =
      sv.encode64 (sv.do_sign sk_pem (signed_bytes mn sn dhx dhy timestamp) sk_pass)
