-- ===== src/Net/Merger.antt =====
-- How a node answers another one, and passes its message on: MergerService of
-- src/plugins/net_plugin/rpc_services/rpc_services.cpp.
pub mod Relayed
use gruut.Base.{
  ℕ, String, Bool, true, false, not, ◌&&◌, Option, none, some, List, [], ◌∷◌, ◌==◌, if◌then◌else◌,
  Bytes, Assoc, at, insert_or_assign,
}
use gruut.Net.Message.{InNetMsg, msg_tx}
use gruut.Net.Packer.{Codec, parse_message, Parsed, out_of_range, refused, parsed}
use gruut.Net.Validator.{validate}
use gruut.Net.IdMapping.{IdMappingTable, map_id}
use gruut.Net.Service.{Effects, no_effects, publication, needs_pool, needs_context}

pub record Request : Type 0 where
  pub message : Bytes
  pub broadcast : Bool
  pub message_id : String

pub data MsgStatus : Type 0 where
  success duplicated : MsgStatus
  invalid : String → MsgStatus

pub record MergerState : Type 0 where
  pub broadcast_check_table : Assoc ℕ
  pub id_mapping_table : IdMappingTable

-- `relayed` are the requests that go to nodes of the routing table.
pub record MergerAnswer : Type 0 where
  pub status : MsgStatus
  pub effects : Effects
  pub relayed : List Request
  pub state : MergerState

-- What the node has beside its state: the running mode, the clock, the metadata "net_id" of the call, the
-- base 58 of a text and SHA-1.
pub record NodeInfo : Type 0 where
  pub monitoring : Bool
  pub now : ℕ
  pub net_id : Option String
  pub encode58_text : String → String
  pub sha1 : String → String

abbrev pub refuse : MsgStatus → MergerState → MergerAnswer
refuse status s = record { status = status; effects = no_effects; relayed = []; state = s }

-- The fields that are not set are empty, so that the request has no id.
abbrev pub relay : Request → List Request
relay req =
    if req.broadcast
    then record { message = req.message; broadcast = true; message_id = "" } ∷ []
    else []

-- The state once the id of a broadcast is noted.
abbrev pub noted : ℕ → Request → MergerState → MergerState
noted now req s = record s {
  broadcast_check_table =
      if req.broadcast
      then insert_or_assign req.message_id now s.broadcast_check_table
      else s.broadcast_check_table;
}

abbrev pub is_there : Option ℕ → Bool
is_there none = false
is_there (some t) = true

-- count(msg_id) > 0
abbrev pub is_seen : String → Assoc ℕ → Bool
is_seen id table = is_there (at id table)

module _ (n : NodeInfo) where
  -- mapping_user_id_to_net_id; the metadata are read without a test.
  abbrev mapped : InNetMsg → MergerState → Option MergerState
  mapped msg s = elim n.net_id [
    | none ↦ none
    | some net_id ↦ some (record s {
      id_mapping_table = map_id n.sha1 (n.encode58_text msg.sender_id) net_id s.id_mapping_table;
    })
  ]

  -- MessageHandler(&m_context, id_mapping_table), which has no pool: none where it reads through it.
  unfoldable pub handle_with_context : InNetMsg → MergerState → Option (Effects × MergerState)
  handle_with_context msg s =
      if needs_context msg.type
      then elim (mapped msg s) [ none ↦ none | some s' ↦ some (no_effects, s') ]
      else if needs_pool msg.type
      then none
      else some (publication msg, s)

  abbrev conclude : Request → Option (Effects × MergerState) → Option MergerAnswer
  conclude req none = none
  conclude req (some (e, s)) =
      some (record { status = success; effects = e; relayed = relay req; state = s })

  abbrev handle_request : InNetMsg → MergerState → Option (Effects × MergerState)
  handle_request msg s =
      if n.monitoring && msg.type == msg_tx then some (no_effects, s) else handle_with_context msg s

  unfoldable pub take_message : Request → InNetMsg → MergerState → Option MergerAnswer
  take_message req msg s =
      if not (validate msg.body)
      then some (refuse (invalid "Bad request (message validate fail)") s)
      else if req.broadcast && is_seen req.message_id s.broadcast_check_table
      then some (refuse duplicated s)
      else conclude req (handle_request msg (noted n.now req s))

  -- None where the parser reads past the bytes or throws, or the handler reads what is not there.
  unfoldable pub merger_service : Codec → Request → MergerState → Option MergerAnswer
  merger_service c req s = elim (parse_message c req.message) [
    | out_of_range ↦ none
    | refused err ↦ some (refuse (invalid err) s)
    | parsed msg ↦ take_message req msg s
  ]
