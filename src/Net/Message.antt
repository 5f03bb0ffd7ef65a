-- ===== src/Net/Message.antt =====
-- The messages of src/plugins/net_plugin/config/include/message.hpp, what the handlers read of a JSON
-- body through src/lib/json/include/json.hpp, and the exceptions that a handler throws. A value of an
-- `enum class : uint8_t` is its byte.
use gruut.Base.{ℕ, String, Bool, Option, none, some, List, str_eq, if◌then◌else◌}

mutual
  pub data Json : Type 0 where
    null : Json
    boolean : Bool → Json
    text : String → Json
    number : Json
    -- what parsing gives on a text that is not JSON
    discarded : Json
    object : Fields → Json
    -- with its elements as the iteration over `items()` gives them, each under its index
    array : Fields → Json

  pub data Fields : Type 0 where
    no_fields : Fields
    field : String → Json → Fields → Fields

abbrev pub MessageType : Type 0
MessageType = ℕ

abbrev pub msg_req_block : MessageType
msg_req_block = 0x32

abbrev pub msg_req_bone : MessageType
msg_req_bone = 0x36

abbrev pub msg_join : MessageType
msg_join = 0x54

abbrev pub msg_challenge : MessageType
msg_challenge = 0x55

abbrev pub msg_response_1 : MessageType
msg_response_1 = 0x56

abbrev pub msg_response_2 : MessageType
msg_response_2 = 0x57

abbrev pub msg_success : MessageType
msg_success = 0x58

abbrev pub msg_accept : MessageType
msg_accept = 0x59

abbrev pub msg_tx : MessageType
msg_tx = 0xB1

abbrev pub msg_req_ssig : MessageType
msg_req_ssig = 0xB2

abbrev pub msg_ssig : MessageType
msg_ssig = 0xB3

abbrev pub msg_block : MessageType
msg_block = 0xB4

abbrev pub msg_req_tx_check : MessageType
msg_req_tx_check = 0xC0

abbrev pub msg_query : MessageType
msg_query = 0xC3

pub record InNetMsg : Type 0 where
  pub type : MessageType
  pub body : Json
  pub sender_id : String

pub record OutNetMsg : Type 0 where
  pub type : MessageType
  pub body : Json
  pub receivers : List String

pub data ErrorMsgType : Type 0 where
  unknown ecdh_illegal_access ecdh_max_signer_pool ecdh_timeout ecdh_invalid_sig ecdh_invalid_pk :
      ErrorMsgType

-- What a handler throws: an error of its own, or an exception of the standard library or of nlohmann::json.
pub data Thrown : Type 0 where
  error : ErrorMsgType → Thrown
  exception : Thrown

pub data Result {ℓ} (A : Type ℓ) : Type ℓ where
  ok : A → Result A
  raise : Thrown → Result A

infixl 5 ◌>>=◌
abbrev pub ◌>>=◌ {ℓ κ} : {A : Type ℓ} {B : Type κ} → Result A → (A → Result B) → Result B
ok a >>= f = f a
raise e >>= f = raise e

abbrev member : Fields → String → Option Json
member no_fields key = none
member (field k v fs) key = if str_eq k key then some v else member fs key

-- json_obj.contains(key), with the value that is there
abbrev pub contains : Json → String → Option Json
contains (object fs) key = member fs key
contains null key = none
contains (boolean b) key = none
contains (text s) key = none
contains number key = none
contains (array fs) key = none
contains discarded key = none

abbrev as_text : Option Json → Result (Option String)
as_text none = ok none
as_text (some (text s)) = ok (some s)
as_text (some null) = raise exception
as_text (some (boolean b)) = raise exception
as_text (some number) = raise exception
as_text (some (array fs)) = raise exception
as_text (some discarded) = raise exception
as_text (some (object fs)) = raise exception

-- json::get<string>: the test for convertibility is one of types, so that another value throws.
abbrev pub get_text : Json → String → Result (Option String)
get_text j key = as_text (contains j key)

-- json::get<nlohmann::json>
abbrev pub get_json : Json → String → Option Json
get_json j key = contains j key

-- optional::value
abbrev pub value {ℓ} : {A : Type ℓ} → Option A → Result A
value none = raise exception
value (some a) = ok a

abbrev or_null : Option Json → Json
or_null none = null
or_null (some v) = v

-- operator[] of an object, which puts a null there if the key is absent, and of a null, which makes it
-- an object; of any other value it throws.
abbrev pub element_at : Json → String → Result Json
element_at (object fs) key = ok (or_null (member fs key))
element_at null key = ok null
element_at (boolean b) key = raise exception
element_at (text s) key = raise exception
element_at number key = raise exception
element_at (array fs) key = raise exception
element_at discarded key = raise exception

-- json::get<string>(body[outer], inner).value()
unfoldable pub inner_text : Json → String → String → Result String
inner_text body outer inner = do part ← element_at body outer; t ← get_text part inner; value t
