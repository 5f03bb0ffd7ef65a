-- ===== src/Net/Service/Runs.antt =====
-- Requests of users and of another node, and the instances of what holds of them.
use gruut.Base.{
  ◌≡◌, refl, ℕ, ◌++◌, Bool, true, false, String, none, some, List, [], ◌∷◌, length, ◌==◌,
  if◌then◌else◌, Bytes,
}
use gruut.Net.Message.{Json, null, text, object, no_fields, field, msg_success, msg_tx, InNetMsg}
use gruut.Net.Tests.{services, outside_at, manager, codec, out_tx}
use gruut.Net.UserPool.{get_hmac_key}
use gruut.Net.Packer.{Codec, pack}
use gruut.Net.Validator.{validate}
use gruut.Net.Service.{
  serve, handle_alone, ServiceAnswer, answer, success, publish, transaction, verify_hmac, forward,
  key_ex_service, user_service,
}
use gruut.Net.Merger
use gruut.Net.Merger.{
  Request, MergerState, MergerAnswer, NodeInfo, merger_service, refuse, duplicated, relay,
}
use gruut.Net.Merger.Relayed.{merger_service-duplicated}
use gruut.Net.Service.Guarded.{Kept, Leaves, key_ex_service-Joined}

-- A code of authentication here is right just if the key is empty.
abbrev verify : Bytes → Bytes → Bytes → Bool
verify raw hmac key = length key == 0

abbrev received_tx : InNetMsg
received_tx = record { type = msg_tx; body = null; sender_id = "node" }

abbrev tx_bytes : Bytes
tx_bytes = pack codec out_tx ++ 9 ∷ []

-- The sender is not in the pool, and the empty key is taken.
served :
    user_service codec verify tx_bytes manager
    ≡ answer
        (success [])
        (record { published = (transaction, null) ∷ []; sent = forward codec received_tx })
        manager
unfolding user_service gruut.Net.Packer.parse_message pack gruut.Net.Packer.make_header
    gruut.Net.Packer.validate_msg_hdr_format gruut.Net.Packer.parse_header
    gruut.Net.Packer.convert_u8_to_u32_be validate gruut.Net.Packer.get_json serve verify_hmac
    handle_alone get_hmac_key gruut.Base.at
served = refl

abbrev mode_body : Json
mode_body = object (field "mode" (text "user") no_fields)

abbrev mode_codec : Codec
mode_codec = record codec { from_cbor = λ bs. mode_body }

abbrev success_bytes : Bytes
success_bytes =
    pack mode_codec (record { type = msg_success; body = mode_body; receivers = [] }) ++ 9 ∷ []

key_ex_service-Joined_example :
    Leaves
      (Kept mode_codec verify services (outside_at 5) success_bytes manager)
      (key_ex_service mode_codec verify services (outside_at 5) false success_bytes manager)
key_ex_service-Joined_example =
    key_ex_service-Joined mode_codec verify services (outside_at 5) false success_bytes manager

abbrev answered : ServiceAnswer
answered = key_ex_service mode_codec verify services (outside_at 5) false success_bytes manager

abbrev node : NodeInfo
node = record { monitoring = false; now = 5; net_id = none; encode58_text = λ s. s; sha1 = λ s. s }

abbrev new_node : MergerState
new_node = record { broadcast_check_table = []; id_mapping_table = [] }

abbrev first : Request
first = record { message = tx_bytes; broadcast = true; message_id = "one" }

abbrev second : Request
second = record { message = pack codec out_tx; broadcast = true; message_id = "two" }

-- The request that goes on with the message of another one.
abbrev with_message : Bytes → Request
with_message bs = record { message = bs; broadcast = true; message_id = "" }

abbrev takes : String → Bytes → MergerAnswer
takes id bs = record {
  status = Merger.success;
  effects = publish transaction null;
  relayed = with_message bs ∷ [];
  state = record { broadcast_check_table = (id, 5) ∷ []; id_mapping_table = [] };
}

merger_service-duplicated_example :
    merger_service node codec (with_message (pack codec out_tx)) (takes "" tx_bytes).state
    ≡ some (refuse duplicated (takes "" tx_bytes).state)
unfolding merger_service gruut.Net.Packer.parse_message pack gruut.Net.Packer.make_header
    gruut.Net.Packer.validate_msg_hdr_format gruut.Net.Packer.parse_header
    gruut.Net.Packer.convert_u8_to_u32_be Merger.take_message validate gruut.Net.Packer.get_json
    gruut.Base.at Merger.handle_with_context gruut.Base.insert_or_assign
merger_service-duplicated_example =
    merger_service-duplicated codec node node node node first second (with_message tx_bytes)
      (with_message (pack codec out_tx)) new_node new_node new_node (takes "one" tx_bytes)
      (takes "two" (pack codec out_tx)) (takes "" tx_bytes) refl refl refl refl refl
