-- ===== src/Net/Tests.antt =====
-- A user that joins, and a message that is packed and parsed.
use gruut.Base.{
  ℕ, ◌+◌, ◌^◌, ◌<◌, ◌≤◌, ◌≢◌, ◌≡◌, refl, String, Bool, true, false, none, some, List, [], ◌∷◌, ◌++◌,
  length, take, drop, str_eq, Bytes, at, insert_or_assign, arith,
}
use gruut.Base.Int.{pos, suc_ℤ, sub64}
use gruut.Net.Message.{
  null, text, object, no_fields, field, InNetMsg, OutNetMsg, ok, msg_tx, msg_response_1, inner_text,
}
use gruut.Net.Bitset.{resize, falses}
use gruut.Net.UserPool.{
  UserPool, signer_only, empty_pool, push_user, erase_user, full, get_close_signers, signers_of,
  no_signer, Candidate,
}
use gruut.Net.UserPool.Counted.{IsCounted, signers, erase_user-push_push}
use gruut.Net.UserPool.Closest.{IsSorted, tally, get_close_signers-IsSorted}
use gruut.Net.Signature.{Services, verify_signature}
use gruut.Net.Builder.{build_accept, build_response_2}
use gruut.Net.KeyExchange.{
  UserPoolManager, Outside, handle_msg, handle_response_1, handle_join, handle_success, has_temp,
  temp_of, mode_of,
}
use gruut.Net.KeyExchange.Entry.{Outcome, handle_msg-Outcome}
use gruut.Net.KeyExchange.Response.{IsKept, handle_response_1-checked}
use gruut.Net.KeyExchange.Joins.{
  Event, receive, after, after-IsCounted, join_of, success_of, join-success,
}
use gruut.Net.Packer.{
  Codec, pack, parse_message, parsed, make_header, parse_header, validate_msg_hdr_format,
  convert_u8_to_u32_be, get_json,
}
use gruut.Net.Packer.RoundTrip.{IsSound, big_endian, received, parse_message-pack}

abbrev pub services : Services
services = record {
  encode64 = λ s. s;
  decode64 = λ s. s;
  decode58 = λ s. s;
  append_base64 = λ s bs. 1 ∷ bs;
  append_hex = λ s bs. 2 ∷ bs;
  append_dec = λ s bs. 3 ∷ bs;
  do_verify = λ pk bs sig. str_eq sig "signed";
  do_sign = λ sk bs pass. "signed";
  verify_cert = λ cert auth. str_eq cert "cert";
  auth_cert = "auth";
  my_id = "node";
}

abbrev pub outside_at : ℕ → Outside
outside_at t = record {
  now = t;
  now_text = "now";
  random = "nonce";
  dhx = "x";
  dhy = "y";
  shared_secret_key = λ x y. 7 ∷ [];
}

abbrev pub manager : UserPoolManager
manager = record {
  users = empty_pool;
  temp_user_pool = [];
  my_enc_sk = "sk";
  my_cert = "mine";
  my_pass = "pass";
}

empty_pool-IsCounted : IsCounted 0 empty_pool
unfolding gruut.Base.count_if
empty_pool-IsCounted = (tt, (0, refl, omega arith, omega arith))

abbrev response : InNetMsg
response = record {
  type = msg_response_1;
  body = object (
      field "dh" (object (field "x" (text "x") (field "y" (text "y") no_fields))) (
        field "un" (text "un") (
          field "time" (text "1") (
            field "user" (object (field "pk" (text "cert") (field "sig" (text "signed") no_fields)))
              no_fields))));
  sender_id = "user";
}

abbrev events : List Event
events =
    receive (outside_at 100) (join_of "user")
    ∷ receive (outside_at 101) response
    ∷ receive (outside_at 102) (success_of "user" "signer")
    ∷ []

after-IsCounted_example : IsCounted (0 + length events) (after services events manager).users
after-IsCounted_example =
    after-IsCounted services events 0 manager empty_pool-IsCounted (omega arith)

-- All three messages are answered, and the pool has its signer.
one_signer : (after services events manager).users.num_of_signers ≡ pos 1
unfolding after handle_msg handle_join handle_response_1 verify_signature push_user handle_success
    at full insert_or_assign inner_text
one_signer = refl

handle_msg-Outcome_example :
    Outcome services
      (outside_at 5)
      (success_of "user" "all")
      manager
      (handle_msg services (outside_at 5) (success_of "user" "all") manager)
handle_msg-Outcome_example =
    handle_msg-Outcome services (outside_at 5) (success_of "user" "all") manager

join-success_example :
    let (reply, m') =
      handle_msg services
        (outside_at 105)
        (success_of "user" "all")
        (handle_msg services (outside_at 100) (join_of "user") manager).1 in
    (reply ≡ ok (build_accept "now" "node" "user"))
    × (m'.users ≡ push_user (λ s. s) "user" [] "" (mode_of "all") empty_pool)
unfolding full at
join-success_example =
    join-success services (outside_at 100) (outside_at 105) "user" "all" manager refl refl
      (omega arith) (omega arith) (omega arith)

abbrev joining : UserPoolManager
joining = (handle_msg services (outside_at 100) (join_of "user") manager).1

abbrev answered : UserPoolManager
answered = (handle_response_1 services (outside_at 101) response joining).1

handle_response_1-checked_example :
    (has_temp "user" joining ≡ true)
    × (sub64 101 (temp_of "user" joining).start_time ≤ 10)
    × (verify_signature services (temp_of "user" joining).merger_nonce response.body ≡ ok true)
    × IsKept services (outside_at 101) response joining answered
unfolding handle_msg handle_join handle_response_1 verify_signature at full insert_or_assign
    inner_text
handle_response_1-checked_example =
    handle_response_1-checked services (outside_at 101) response joining answered
      (build_response_2 "node" "now" "user" "x" "y" "mine" "signed") refl

erase_user-push_push_example :
    let twice =
      push_user
        (λ s. s)
        "user"
        (2 ∷ [])
        "pk"
        signer_only
        (push_user (λ s. s) "user" (1 ∷ []) "pk" signer_only empty_pool) in
    let (erased, left) = erase_user "user" twice in
    (erased ≡ true)
    × (at "user" left.user_pool ≡ none)
    × (left.num_of_signers ≡ suc_ℤ (pos 0))
    × (signers left ≡ signers empty_pool)
unfolding at
erase_user-push_push_example =
    erase_user-push_push (λ s. s) "user" (1 ∷ []) (2 ∷ []) "pk" signer_only 0 empty_pool
      empty_pool-IsCounted (omega arith) refl refl

abbrev two_users : UserPool
two_users =
    push_user (λ s. s) "b" [] "" signer_only (push_user (λ s. s) "a" [] "" signer_only empty_pool)

get_close_signers-IsSorted_example :
    (length (get_close_signers (λ s. s) (falses 256) 3 two_users) ≡ 3)
    × ((cs : List Candidate) × (get_close_signers (λ s. s) (falses 256) 3 two_users
          ≡ resize 3 no_signer cs)
        × IsSorted (falses 256) cs
        × ((p : Candidate → Bool) → tally p cs ≡ tally p (signers_of (λ s. s) two_users.user_pool))
        × (length (signers_of (λ s. s) two_users.user_pool) ≡ signers two_users))
get_close_signers-IsSorted_example = get_close_signers-IsSorted (λ s. s) (falses 256) 3 two_users

abbrev eight : Bytes
eight = 1 ∷ 2 ∷ 3 ∷ 4 ∷ 5 ∷ 6 ∷ 7 ∷ 8 ∷ []

-- One byte stands for every body, and it decodes to null.
abbrev pub codec : Codec
codec = record {
  to_cbor = λ j. 0xF6 ∷ [];
  from_cbor = λ bs. null;
  parse_json = λ bs. null;
  decompress = λ bs. bs;
  validate_schema = λ j t. true;
  integer_to_bytes = big_endian;
  encode58 = λ bs. "node";
  generate_hmac = λ bs key. key;
  world_id = eight;
  chain_id = eight;
  my_id = eight ++ (eight ++ (eight ++ eight));
}

abbrev pub out_tx : OutNetMsg
out_tx = record { type = msg_tx; body = null; receivers = [] }

pub codec-IsSound : IsSound codec null
codec-IsSound = record {
  cbor = refl;
  cbor_some = λ e. cc e;
  integer = λ n h. refl;
  world = refl;
  chain = refl;
  sender = refl;
}

parse_message-pack_example :
    parse_message codec (pack codec out_tx ++ 9 ∷ []) ≡ received codec out_tx
parse_message-pack_example = parse_message-pack codec out_tx codec-IsSound (9 ∷ []) (omega arith)

sent_and_received :
    parse_message codec (pack codec out_tx)
    ≡ parsed record { type = msg_tx; body = null; sender_id = "node" }
unfolding parse_message pack make_header parse_header validate_msg_hdr_format convert_u8_to_u32_be
    get_json
sent_and_received = refl
