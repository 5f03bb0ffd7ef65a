-- ===== src/Net/Packer.antt =====
-- The bytes of a message: src/plugins/net_plugin/include/message_packer.hpp and message_parser.hpp.
pub mod RoundTrip
use gruut.Base.{
  ℕ, ◌+◌, ◌-◌, ◌*◌, ◌^◌, String, Bool, true, false, ◌&&◌, ◌||◌, List, [], ◌∷◌, ◌++◌, length, take,
  drop, ltb, ◌==◌, if◌then◌else◌, Bytes,
}
use gruut.Net.Message.{
  Json, null, MessageType, InNetMsg, OutNetMsg, msg_accept, msg_req_ssig, msg_success, msg_ssig,
  msg_req_tx_check, msg_query, msg_tx,
}

-- What messages use of other code: CBOR, JSON and LZ4, the schemas, TypeConverter and HMAC, and the ids
-- that app() holds.
pub record Codec : Type 0 where
  pub to_cbor : Json → Bytes
  pub from_cbor : Bytes → Json
  pub parse_json : Bytes → Json
  pub decompress : Bytes → Bytes
  pub validate_schema : Json → MessageType → Bool
  pub integer_to_bytes : ℕ → Bytes
  pub encode58 : Bytes → String
  pub generate_hmac : Bytes → Bytes → Bytes
  pub world_id : Bytes
  pub chain_id : Bytes
  pub my_id : Bytes

abbrev pub mac_hmac : ℕ
mac_hmac = 0xF1

abbrev pub mac_none : ℕ
mac_none = 0xFF

abbrev pub ser_lz4 : ℕ
ser_lz4 = 0x04

abbrev pub ser_cbor : ℕ
ser_cbor = 0x06

abbrev pub ser_none : ℕ
ser_none = 0xFF

-- 'P'
abbrev pub identifier_byte : ℕ
identifier_byte = 0x50

abbrev pub version_byte : ℕ
version_byte = 0x01

abbrev pub not_used : ℕ
not_used = 0x00

abbrev pub msg_length_size : ℕ
msg_length_size = 4

abbrev pub world_id_type_size : ℕ
world_id_type_size = 8

abbrev pub chain_id_type_size : ℕ
chain_id_type_size = 8

abbrev pub sender_id_type_size : ℕ
sender_id_type_size = 32

abbrev pub header_length : ℕ
header_length = 58

pub record MessageHeader : Type 0 where
  pub identifier : ℕ
  pub version : ℕ
  pub message_type : MessageType
  pub mac_algo_type : ℕ
  pub serialization_algo_type : ℕ
  pub dummy : ℕ
  pub total_length : Bytes
  pub world_id : Bytes
  pub local_chain_id : Bytes
  pub sender_id : Bytes

abbrev pub mac_type_of : MessageType → ℕ
mac_type_of t = if t == msg_accept || t == msg_req_ssig then mac_hmac else mac_none

-- How the parsing of a message ends: out_of_range is a read past the bytes that came in, or the exception
-- of a length that is negative; a refusal has its text.
pub data Parsed : Type 0 where
  out_of_range : Parsed
  refused : String → Parsed
  parsed : InNetMsg → Parsed

abbrev byte : ℕ → Bytes → ℕ
byte i bs = elim (drop i bs) [ [] ↦ 0 | b ∷ rest ↦ b ]

abbrev from_be : ℕ → Bytes → ℕ
from_be n [] = n
from_be n (b ∷ bs) = from_be (n * 256 + b) bs

-- For HEADER_LENGTH bytes or more. The fields that follow the first six are copied one after the other.
unfoldable pub parse_header : Bytes → MessageHeader
parse_header raw =
    let rest = drop 6 raw in
    let rest1 = drop msg_length_size rest in
    let rest2 = drop world_id_type_size rest1 in
    let rest3 = drop chain_id_type_size rest2 in
    record {
      identifier = byte 0 raw;
      version = byte 1 raw;
      message_type = byte 2 raw;
      mac_algo_type = byte 3 raw;
      serialization_algo_type = byte 4 raw;
      dummy = byte 5 raw;
      total_length = take msg_length_size rest;
      world_id = take world_id_type_size rest1;
      local_chain_id = take chain_id_type_size rest2;
      sender_id = take sender_id_type_size rest3;
    }

unfoldable pub validate_msg_hdr_format : MessageHeader → Bool
validate_msg_hdr_format header =
    let t = header.message_type in
    header.identifier == identifier_byte
    && (if header.mac_algo_type == mac_hmac
        then t == msg_success
          || t == msg_ssig
          || t == msg_req_tx_check
          || t == msg_query
          || t == msg_tx
        else true)

-- The 32 bits of the result; as an `int` it is negative from 2 ^ 31 on.
unfoldable pub convert_u8_to_u32_be : Bytes → ℕ
convert_u8_to_u32_be bs = from_be 0 bs

module _ (c : Codec) where
  unfoldable pub make_header : ℕ → MessageType → ℕ → Bytes
  make_header serialized_json_size msg_type serialization_algo_type =
      identifier_byte
      ∷ version_byte
      ∷ msg_type
      ∷ mac_type_of msg_type
      ∷ serialization_algo_type
      ∷ not_used
      ∷ (c.integer_to_bytes (header_length + serialized_json_size)
          ++ (c.world_id ++ (c.chain_id ++ c.my_id)))

  unfoldable pub pack : OutNetMsg → Bytes
  pack out_msg =
      let body = c.to_cbor out_msg.body in make_header (length body) out_msg.type ser_cbor ++ body

  -- packMessage with MACAlgorithmType::HMAC; with NONE it is `pack`.
  abbrev pub pack_message_hmac : OutNetMsg → Bytes → Bytes
  pack_message_hmac out_msg hmac_key =
      let packed_msg = pack out_msg in packed_msg ++ c.generate_hmac packed_msg hmac_key

  unfoldable pub get_json : ℕ → Bytes → Json
  get_json serialization_algo_type [] = null
  get_json serialization_algo_type (b ∷ bs) =
      if serialization_algo_type == ser_lz4
      then c.parse_json (c.decompress (b ∷ bs))
      else if serialization_algo_type == ser_none
      then c.parse_json (b ∷ bs)
      else if serialization_algo_type == ser_cbor
      then c.from_cbor (b ∷ bs)
      else null

  abbrev pub parse_body : MessageHeader → Bytes → Parsed
  parse_body header raw_body =
      let json_body = get_json header.serialization_algo_type raw_body in
      if c.validate_schema json_body header.message_type
      then parsed record {
        type = header.message_type;
        body = json_body;
        sender_id = c.encode58 header.sender_id;
      }
      else refused "Bad request (Json schema error)"

  unfoldable pub parse_message : Bytes → Parsed
  parse_message packed_msg =
      if ltb (length packed_msg) header_length
      then out_of_range
      else (let header = parse_header (take header_length packed_msg) in
          let total = convert_u8_to_u32_be header.total_length in
          if validate_msg_hdr_format header
          then if ltb total header_length || ltb (2 ^ 31 - 1) total || ltb (length packed_msg) total
            then out_of_range
            else parse_body header (take (total - header_length) (drop header_length packed_msg))
          else refused "Bad request (Invalid message header format)")
