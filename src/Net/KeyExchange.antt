-- ===== src/Net/KeyExchange.antt =====
-- How a user joins: class UserPoolManager of src/plugins/net_plugin/include/user_pool_manager.hpp. The
-- state comes back after a throw too, since what was written stays written.
pub mod Entry
pub mod Joins
pub mod Response
use gruut.Base.{
  ℕ, String, Bool, true, false, not, Option, none, some, List, [], ◌∷◌, ltb, ◌==◌, str_eq,
  if◌then◌else◌, Bytes, Assoc, at, insert_or_assign, erase,
}
use gruut.Base.Int.{sub64}
use gruut.Net.Message.{
  Json, get_text, inner_text, value, InNetMsg, OutNetMsg, Result, ok, raise, Thrown, error,
  ErrorMsgType, unknown, ecdh_illegal_access, ecdh_max_signer_pool, ecdh_timeout, ecdh_invalid_sig,
  ecdh_invalid_pk, msg_join, msg_response_1, msg_success,
}
use gruut.Net.UserPool.{
  UserPool, UserMode, user_only, signer_only, all, push_user, erase_user, get_hmac_key, full,
  empty_pool,
}
use gruut.Net.Signature.{Services, verify_signature, sign_message}
use gruut.Net.Builder.{build_challenge, build_response_2, build_accept}

pub record JoinTempData : Type 0 where
  pub merger_nonce : String
  pub user_pk : String
  pub shared_sk : Bytes
  pub start_time : ℕ

-- What operator[] of the map makes for a key that is absent.
abbrev pub no_data : JoinTempData
no_data = record { merger_nonce = ""; user_pk = ""; shared_sk = []; start_time = 0 }

pub record UserPoolManager : Type 0 where
  pub users : UserPool
  pub temp_user_pool : Assoc JoinTempData
  pub my_enc_sk : String
  pub my_cert : String
  pub my_pass : String

-- What a call finds outside: the clock as a number and as text, 32 random bytes, and the keys of a new
-- HmacKeyMaker, getSharedSecretKey among them.
pub record Outside : Type 0 where
  pub now : ℕ
  pub now_text : String
  pub random : String
  pub dhx : String
  pub dhy : String
  pub shared_secret_key : String → String → Bytes

abbrev pub Action : Type 0 → Type 0
Action A = UserPoolManager → Result A × UserPoolManager

infixl 5 ◌>>=◌ ◌>>◌
abbrev pub ◌>>=◌ : {A B : Type 0} → Action A → (A → Action B) → Action B
◌>>=◌ a f m = let (r, m') = a m in elim r [ ok x ↦ f x m' | raise e ↦ (raise e, m') ]

abbrev pub ◌>>◌ : {A B : Type 0} → Action A → Action B → Action B
a >> b = a >>= λ _. b

module _ {A : Type 0} where
  abbrev pub lift : Result A → Action A
  lift r m = (r, m)

  abbrev pub gets : (UserPoolManager → A) → Action A
  gets f m = (ok (f m), m)

abbrev pub raise_if : Bool → ErrorMsgType → Action Unit
raise_if c e m = (if c then raise (error e) else ok tt, m)

abbrev pub modify : (UserPoolManager → UserPoolManager) → Action Unit
modify f m = (ok tt, f m)

abbrev pub temp_or_new : Option JoinTempData → JoinTempData
temp_or_new none = no_data
temp_or_new (some d) = d

-- temp_user_pool[id] as a value
abbrev pub temp_of : String → UserPoolManager → JoinTempData
temp_of id m = temp_or_new (at id m.temp_user_pool)

-- An assignment to a member of temp_user_pool[id].
abbrev pub update_temp : String → (JoinTempData → JoinTempData) → UserPoolManager → UserPoolManager
update_temp id f m = record m {
  temp_user_pool = insert_or_assign id (f (temp_of id m)) m.temp_user_pool;
}

abbrev pub join_timeout_sec : ℕ
join_timeout_sec = 10

abbrev pub has_temp : String → UserPoolManager → Bool
has_temp id m = elim (at id m.temp_user_pool) [ none ↦ false | some d ↦ true ]

abbrev pub is_joinable : UserPoolManager → Bool
is_joinable m = full m.users

-- The look-up puts an entry there if there is none.
abbrev pub is_timeout : Outside → String → Action Bool
is_timeout out id m =
    let d = temp_of id m in
    (ok (ltb join_timeout_sec (sub64 out.now d.start_time)), update_temp id (λ t. t) m)

abbrev pub no_bytes : Bytes → Bool
no_bytes [] = true
no_bytes (b ∷ bs) = false

abbrev pub mode_of : String → UserMode
mode_of mode =
    if str_eq mode "user" then user_only else if str_eq mode "signer" then signer_only else all

module _ (sv : Services) (out : Outside) where
  unfoldable pub handle_join : InNetMsg → Action OutNetMsg
  handle_join msg = do
    joinable ← gets is_joinable
    raise_if (not joinable) ecdh_max_signer_pool
    user_id_in_body ← lift (get_text msg.body "user")
    user_id ← lift (value user_id_in_body)
    raise_if (not (str_eq user_id msg.sender_id)) ecdh_illegal_access
    modify (update_temp msg.sender_id λ t. record t { start_time = out.now })
    let merger_nonce = sv.encode64 out.random
    modify (update_temp msg.sender_id λ t. record t { merger_nonce = merger_nonce })
    lift (ok (build_challenge out.now_text sv.my_id msg.sender_id merger_nonce))

  unfoldable pub handle_response_1 : InNetMsg → Action OutNetMsg
  handle_response_1 msg = do
    known ← gets (has_temp msg.sender_id)
    raise_if (not known) ecdh_illegal_access
    late ← is_timeout out msg.sender_id
    raise_if late ecdh_timeout
    mn ← gets λ m. (temp_of msg.sender_id m).merger_nonce
    verified ← lift (verify_signature sv mn msg.body)
    raise_if (not verified) ecdh_invalid_sig
    user_cert ← lift (inner_text msg.body "user" "pk")
    raise_if (not (sv.verify_cert user_cert sv.auth_cert)) ecdh_invalid_pk
    modify (update_temp msg.sender_id λ t. record t { user_pk = user_cert })
    user_dhx ← lift (inner_text msg.body "dh" "x")
    user_dhy ← lift (inner_text msg.body "dh" "y")
    let shared_sk = out.shared_secret_key user_dhx user_dhy
    raise_if (no_bytes shared_sk) ecdh_invalid_pk
    modify (update_temp msg.sender_id λ t. record t { shared_sk = shared_sk })
    un ← lift (get_text msg.body "un")
    sn ← lift (value un)
    sk ← gets λ m. m.my_enc_sk
    pass ← gets λ m. m.my_pass
    cert ← gets λ m. m.my_cert
    let sig = sign_message sv out.now_text mn sn out.dhx out.dhy sk pass
    lift (ok (build_response_2 sv.my_id out.now_text msg.sender_id out.dhx out.dhy cert sig))

  unfoldable pub handle_success : InNetMsg → Action OutNetMsg
  handle_success msg = do
    late ← is_timeout out msg.sender_id
    raise_if late ecdh_timeout
    mode_text ← lift (get_text msg.body "mode")
    mode ← lift (value mode_text)
    joining ← gets (temp_of msg.sender_id)
    modify λ m. record m {
      users =
          push_user sv.decode58 msg.sender_id joining.shared_sk joining.user_pk (mode_of mode)
            m.users;
    }
    modify λ m. record m { temp_user_pool = erase msg.sender_id m.temp_user_pool }
    lift (ok (build_accept out.now_text sv.my_id msg.sender_id))

  unfoldable pub handle_msg : InNetMsg → Action OutNetMsg
  handle_msg msg =
      if msg.type == msg_join
      then handle_join msg
      else if msg.type == msg_response_1
      then handle_response_1 msg
      else if msg.type == msg_success
      then handle_success msg
      else lift (raise (error unknown))

unfoldable pub remove_user : String → UserPoolManager → UserPoolManager
remove_user id m = record m { users = (erase_user id m.users).1 }

unfoldable pub remove_temp_user : String → UserPoolManager → UserPoolManager
remove_temp_user id m = record m { temp_user_pool = erase id m.temp_user_pool }

abbrev pub get_temp_hmac_key : String → UserPoolManager → Option Bytes
get_temp_hmac_key id m = elim (at id m.temp_user_pool) [ none ↦ none | some d ↦ some d.shared_sk ]

-- setSelfKeyInfo: it throws before it writes.
abbrev pub set_self_key_info : Json → Action Unit
set_self_key_info key_info = do
  enc_sk ← lift (get_text key_info "enc_sk")
  cert ← lift (get_text key_info "cert")
  pass ← lift (get_text key_info "pass")
  sk ← lift (value enc_sk)
  modify λ m. record m { my_enc_sk = sk }
  c ← lift (value cert)
  modify λ m. record m { my_cert = c }
  p ← lift (value pass)
  modify λ m. record m { my_pass = p }
