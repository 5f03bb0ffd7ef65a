-- ===== src/Net/Service.antt =====
-- How a request is answered: MessageHandler and the services for users and signers of
-- src/plugins/net_plugin/rpc_services/rpc_services.cpp.
pub mod Guarded
pub mod Unguarded
mod Runs
use gruut.Base.{
  ℕ, ◌-◌, String, Bool, true, false, not, ◌&&◌, ◌||◌, Option, none, some, List, [], ◌∷◌, length,
  take, drop, ◌==◌, if◌then◌else◌, Bytes,
}
use gruut.Net.Message.{
  Json, MessageType, InNetMsg, OutNetMsg, Result, ok, raise, Thrown, error, ErrorMsgType, exception,
  msg_req_block, msg_req_bone, msg_join, msg_response_1, msg_success, msg_accept, msg_tx, msg_ssig,
  msg_block,
}
use gruut.Net.Signature.{Services}
use gruut.Net.UserPool.{get_hmac_key}
use gruut.Net.KeyExchange.{UserPoolManager, Outside, handle_msg, get_temp_hmac_key}
use gruut.Net.Packer.{
  Codec, pack, pack_message_hmac, parse_message, Parsed, out_of_range, refused, parsed,
}
use gruut.Net.Validator.{validate}

-- The channels of the application that a message is published on.
pub data Channel : Type 0 where
  transaction block ssig : Channel

pub data Reply : Type 0 where
  -- the reply as it is made: no status is set
  untouched : Reply
  success : Bytes → Reply
  invalid : String → Reply
  -- INTERNAL, with the text of an exception or that the node is monitoring
  internal : Reply
  ecdh : ErrorMsgType → Reply

-- `sent` are the requests that go out to other nodes.
pub record Effects : Type 0 where
  pub published : List (Channel × Json)
  pub sent : List Bytes

abbrev pub no_effects : Effects
no_effects = record { published = []; sent = [] }

abbrev pub publish : Channel → Json → Effects
publish c body = record { published = (c, body) ∷ []; sent = [] }

-- What a call comes to: `undefined` where the source reads through a pointer that is not set, or where
-- the parser reads past the bytes or throws.
pub data ServiceAnswer : Type 0 where
  undefined : ServiceAnswer
  answer : Reply → Effects → UserPoolManager → ServiceAnswer

-- What the handler of a message gives: the message to reply with, if any, or what is thrown.
pub record HandleResult : Type 0 where
  pub result : Result (Option OutNetMsg)
  pub effects : Effects
  pub manager : UserPoolManager

abbrev some_reply : Result OutNetMsg → Result (Option OutNetMsg)
some_reply (ok o) = ok (some o)
some_reply (raise e) = raise e

abbrev pub needs_pool : MessageType → Bool
needs_pool t = t == msg_join || t == msg_response_1 || t == msg_success

abbrev pub needs_context : MessageType → Bool
needs_context t = t == msg_req_bone || t == msg_req_block

-- The messages that end in a channel, and those that end in nothing.
abbrev pub publication : InNetMsg → Effects
publication msg =
    if msg.type == msg_tx
    then publish transaction msg.body
    else if msg.type == msg_block
    then publish block msg.body
    else if msg.type == msg_ssig
    then publish ssig msg.body
    else no_effects

abbrev pub only_publishes : InNetMsg → UserPoolManager → HandleResult
only_publishes msg m = record { result = ok none; effects = publication msg; manager = m }

module _ (sv : Services) (out : Outside) where
  abbrev to_pool : InNetMsg → UserPoolManager → HandleResult
  to_pool msg m =
      let r = handle_msg sv out msg m in
      record { result = some_reply r.0; effects = no_effects; manager = r.1 }

  -- MessageHandler(user_pool_manager): it has no server context.
  unfoldable pub handle_with_pool : InNetMsg → UserPoolManager → Option HandleResult
  handle_with_pool msg m =
      if needs_context msg.type
      then none
      else if needs_pool msg.type
      then some (to_pool msg m)
      else some (only_publishes msg m)

-- MessageHandler(): it has neither a server context nor a pool.
unfoldable pub handle_alone : InNetMsg → UserPoolManager → Option HandleResult
handle_alone msg m =
    if needs_context msg.type || needs_pool msg.type then none else some (only_publishes msg m)

abbrev pub hmac_size : ℕ
hmac_size = 32

-- Hmac::verifyHMAC is `verify`. The parser has seen 58 bytes or more.
unfoldable pub verify_hmac : (Bytes → Bytes → Bytes → Bool) → Bytes → Bytes → Bool
verify_hmac verify packed_msg hmac_key =
    let n = length packed_msg - hmac_size in verify (take n packed_msg) (drop n packed_msg) hmac_key

abbrev pub value_or_empty : Option Bytes → Bytes
value_or_empty none = []
value_or_empty (some k) = k

abbrev thrown_reply : Thrown → Reply
thrown_reply exception = internal
thrown_reply (error e) = ecdh e

module _ (c : Codec) where
  abbrev reply_message : InNetMsg → OutNetMsg → UserPoolManager → Reply
  reply_message msg reply m =
      if reply.type == msg_accept
      then elim (get_hmac_key msg.sender_id m.users) [
        | none ↦ invalid "Bad request (cannot find hmac key)"
        | some key ↦ success (pack_message_hmac c reply key)
      ]
      else success (pack c reply)

  abbrev reply_of : InNetMsg → Result (Option OutNetMsg) → UserPoolManager → Reply
  reply_of msg (raise e) m = thrown_reply e
  reply_of msg (ok none) m = untouched
  reply_of msg (ok (some reply)) m = reply_message msg reply m

  abbrev reply_handled : InNetMsg → Option HandleResult → ServiceAnswer
  reply_handled msg none = undefined
  reply_handled msg (some h) = answer (reply_of msg h.result h.manager) h.effects h.manager

  -- A request for another node, if the message is a transaction.
  abbrev pub forward : InNetMsg → List Bytes
  forward msg =
      if msg.type == msg_tx
      then pack c record { type = msg.type; body = msg.body; receivers = [] } ∷ []
      else []

-- The services for users and signers do not look at the reply of the handler.
abbrev acknowledge : List Bytes → Option HandleResult → ServiceAnswer
acknowledge sent none = undefined
acknowledge sent (some h) =
    answer (success []) (record { published = h.effects.published; sent = sent }) h.manager

module _ (c : Codec) (verify : Bytes → Bytes → Bytes → Bool) (sv : Services) (out : Outside) where
  -- A message of KeyExService that is parsed.
  unfoldable pub exchange : Bytes → InNetMsg → UserPoolManager → ServiceAnswer
  exchange packed_msg msg m =
      let key = value_or_empty (get_temp_hmac_key msg.sender_id m) in
      if not (validate msg.body)
      then answer (invalid "Bad request (message validate fail)") no_effects m
      else if msg.type == msg_success && not (verify_hmac verify packed_msg key)
      then answer (invalid "Bad request (fail to verify hmac )") no_effects m
      else reply_handled c msg (handle_with_pool sv out msg m)

  unfoldable pub key_ex_service : Bool → Bytes → UserPoolManager → ServiceAnswer
  key_ex_service monitoring packed_msg m =
      if monitoring then answer internal no_effects m else elim (parse_message c packed_msg) [
        | out_of_range ↦ undefined
        | refused err ↦ answer (invalid err) no_effects m
        | parsed msg ↦ exchange packed_msg msg m
      ]

module _ (c : Codec) (verify : Bytes → Bytes → Bytes → Bool) where
  -- A message that is parsed, with the requests that follow if it is taken.
  unfoldable pub serve : List Bytes → Bytes → InNetMsg → UserPoolManager → ServiceAnswer
  serve sent packed_msg msg m =
      let key = value_or_empty (get_hmac_key msg.sender_id m.users) in
      if not (validate msg.body)
      then answer (invalid "Bad request (message validation fail)") no_effects m
      else if verify_hmac verify packed_msg key
      then acknowledge sent (handle_alone msg m)
      else answer (invalid "Bad request (fail to verify hmac)") no_effects m

  -- The requests in `sent` go to nodes that each bucket of the routing table chooses at random.
  unfoldable pub user_service : Bytes → UserPoolManager → ServiceAnswer
  user_service packed_msg m = elim (parse_message c packed_msg) [
    | out_of_range ↦ undefined
    | refused err ↦ answer (invalid err) no_effects m
    | parsed msg ↦ serve (forward c msg) packed_msg msg m
  ]

  unfoldable pub signer_service : Bytes → UserPoolManager → ServiceAnswer
  signer_service packed_msg m = elim (parse_message c packed_msg) [
    | out_of_range ↦ undefined
    | refused err ↦ answer (invalid err) no_effects m
    | parsed msg ↦ serve [] packed_msg msg m
  ]
