-- ===== src/Net/Packer/RoundTrip.antt =====
-- What the parser makes of the packer's bytes.
use gruut.Base.{
  ℕ, ◌+◌, ◌-◌, ◌/◌, ◌%◌, ◌^◌, ◌<◌, ◌≡◌, refl, sym, ◌∙◌, true, false, ◌||◌, [], ◌∷◌, ◌++◌, length,
  length-append, take, take-append, drop-append, take_all, append_assoc, ◌==◌, if◌then◌else◌, Bytes,
  arith, ◌≢◌,
}
use gruut.Net.Message.{Json, MessageType, OutNetMsg, msg_accept, msg_req_ssig}
use gruut.Net.Packer.{
  Codec, Parsed, parsed, refused, pack, make_header, parse_header, parse_message, get_json,
  validate_msg_hdr_format, convert_u8_to_u32_be, header_length, mac_type_of, MessageHeader,
  ser_cbor, identifier_byte, version_byte, not_used,
}

-- The four bytes of a number below 2 ^ 32, the highest first.
abbrev pub big_endian : ℕ → Bytes
big_endian n = n / 2 ^ 24 ∷ (n / 2 ^ 16) % 256 ∷ (n / 2 ^ 8) % 256 ∷ n % 256 ∷ []

-- What a message with the body relies on: CBOR decodes what it encodes the body to, which is at least one byte; integerToBytes gives four
-- bytes, the highest first; the ids have the sizes that the header reserves.
pub record IsSound (c : Codec) (body : Json) : Type 0 where
  pub cbor : c.from_cbor (c.to_cbor body) ≡ body
  pub cbor_some : c.to_cbor body ≢ []
  pub integer : (n : ℕ) → n < 2 ^ 31 → c.integer_to_bytes n ≡ big_endian n
  pub world : length c.world_id ≡ 8
  pub chain : length c.chain_id ≡ 8
  pub sender : length c.my_id ≡ 32

from_big_endian : (n : ℕ) → n < 2 ^ 31 → convert_u8_to_u32_be (big_endian n) ≡ n
unfolding convert_u8_to_u32_be
from_big_endian n h = omega arith

module _ (c : Codec) {body : Json} (laws : IsSound c body) (n : ℕ) (t : MessageType)
    (small : 58 + n < 2 ^ 31) where
  abbrev header_of : MessageHeader
  header_of = record {
    identifier = identifier_byte;
    version = version_byte;
    message_type = t;
    mac_algo_type = mac_type_of t;
    serialization_algo_type = ser_cbor;
    dummy = not_used;
    total_length = big_endian (58 + n);
    world_id = c.world_id;
    local_chain_id = c.chain_id;
    sender_id = c.my_id;
  }

  parse_header-make_header : parse_header (make_header c n t ser_cbor) ≡ header_of
  unfolding parse_header make_header
  parse_header-make_header =
      let bytes = laws.integer (58 + n) small in
      let ids = c.world_id ++ (c.chain_id ++ c.my_id) in
      let first = take-append 4 (big_endian (58 + n)) ids refl in
      let after = drop-append 4 (big_endian (58 + n)) ids refl in
      rw
        (
          bytes,
          drop-append 8 c.world_id (c.chain_id ++ c.my_id) laws.world,
          take-append 8 c.world_id (c.chain_id ++ c.my_id) laws.world,
          drop-append 8 c.chain_id c.my_id laws.chain,
          take-append 8 c.chain_id c.my_id laws.chain,
          take_all 32 c.my_id laws.sender,
        )
        refl

  length-make_header : length (make_header c n t ser_cbor) ≡ 58
  unfolding make_header
  length-make_header =
      let bytes = laws.integer (58 + n) small in
      let ids = c.chain_id ++ c.my_id in
      rw bytes (
        omega (
          arith,
          length-append c.world_id ids,
          length-append c.chain_id c.my_id,
          laws.world,
          laws.chain,
          laws.sender,
        ))

  header_of-valid :
      validate_msg_hdr_format header_of
      ≡ (if t == msg_accept || t == msg_req_ssig then false else true)
  unfolding validate_msg_hdr_format
  header_of-valid = ground arith

get_json-cbor : (c : Codec) (j : Json) → IsSound c j → get_json c ser_cbor (c.to_cbor j) ≡ j
unfolding get_json
get_json-cbor c j laws = non_empty (c.to_cbor j) laws.cbor_some ∙ laws.cbor
  where
    non_empty : (bs : Bytes) → bs ≢ [] → get_json c ser_cbor bs ≡ c.from_cbor bs
    non_empty [] h = elim (h refl) [ ]
    non_empty (b ∷ bs) h = refl

module _ (c : Codec) (msg : OutNetMsg) where
  -- What the receiver of a message makes of it.
  abbrev pub received : Parsed
  received =
      if msg.type == msg_accept || msg.type == msg_req_ssig
      then refused "Bad request (Invalid message header format)"
      else if c.validate_schema msg.body msg.type
      then parsed record { type = msg.type; body = msg.body; sender_id = c.encode58 c.my_id }
      else refused "Bad request (Json schema error)"

module _ (c : Codec) (msg : OutNetMsg) (laws : IsSound c msg.body) (rest : Bytes) where
  -- A packed message of less than 2 ^ 31 bytes, with whatever bytes behind it, is parsed to its type, its
  -- body and the id of the packer, if the schema of its type takes the body; but an accept message
  -- and a request for a signature, whose headers name HMAC, are refused for their header.
  pub parse_message-pack :
      58 + length (c.to_cbor msg.body) < 2 ^ 31
      → parse_message c (pack c msg ++ rest) ≡ received c msg
  unfolding parse_message pack
  parse_message-pack small =
      let body = c.to_cbor msg.body in
      let n = length body in
      let head = make_header c n msg.type ser_cbor in
      let len = length-make_header c laws n msg.type small in
      let all = length-append head (body ++ rest) in
      let behind = length-append body rest in
      let total = from_big_endian (58 + n) small in
      let same : 58 + n - 58 ≡ n = omega arith in
      let cut : take (58 + n - header_length) (body ++ rest) ≡ body =
        take-append (58 + n - 58) body rest (sym same) in
      rw
        (
          append_assoc head body rest,
          take-append 58 head (body ++ rest) len,
          drop-append 58 head (body ++ rest) len,
          parse_header-make_header c laws n msg.type small,
          total,
          header_of-valid c laws n msg.type small,
          cut,
          get_json-cbor c msg.body laws,
        )
        (ground arith)
