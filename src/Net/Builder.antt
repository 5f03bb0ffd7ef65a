-- ===== src/Net/Builder.antt =====
-- The replies of a key exchange: src/plugins/net_plugin/include/message_builder.hpp. The time is
-- TimeUtil::now(), and `my_id` the node's id in base 58.
use gruut.Base.{String, true, [], ◌∷◌}
use gruut.Net.Message.{
  boolean, text, object, no_fields, field, OutNetMsg, msg_challenge, msg_response_2, msg_accept,
}

abbrev pub build_challenge : String → String → String → String → OutNetMsg
build_challenge now my_id b58_recv_id merger_nonce = record {
  type = msg_challenge;
  body = object (
      field "time" (text now) (
        field "user" (text b58_recv_id)
          (field "merger" (text my_id) (field "mn" (text merger_nonce) no_fields))));
  receivers = b58_recv_id ∷ [];
}

abbrev pub build_response_2 :
    String → String → String → String → String → String → String → OutNetMsg
build_response_2 my_id timestamp b58_recv_id dhx dhy cert sig = record {
  type = msg_response_2;
  body = object (
      field "time" (text timestamp) (
        field "dh" (object (field "x" (text dhx) (field "y" (text dhy) no_fields))) (
          field "merger"
            (object (
              field "id" (text my_id)
                (field "cert" (text cert) (field "sig" (text sig) no_fields))))
            no_fields)));
  receivers = b58_recv_id ∷ [];
}

abbrev pub build_accept : String → String → String → OutNetMsg
build_accept now my_id b58_recv_id = record {
  type = msg_accept;
  body = object (
      field "time" (text now) (field "merger" (text my_id) (field "val" (boolean true) no_fields)));
  receivers = b58_recv_id ∷ [];
}
