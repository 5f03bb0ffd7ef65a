-- ===== src/Kademlia/Node.antt =====
-- A peer and its connection: src/plugins/net_plugin/kademlia/include/node.hpp. The state of a grpc
-- channel is an input. `m_last_seen_time` is never written and is not modelled.
use gruut.Base.{
  ℕ, ◌+◌, ◌≤◌, String, Bool, true, false, ◌&&◌, List, [], ◌∷◌, arith, ltb, ◌==◌, str_eq,
  if◌then◌else◌, not, ◌||◌,
}
use gruut.Kademlia.Hash.{Hash160, hash_eq, hash_xor}

pub data ChannelState : Type 0 where
  ready connecting other : ChannelState

pub record IpEndpoint : Type 0 where
  pub address : String
  pub port : String

pub record Node : Type 0 where
  pub id_hash : Hash160
  pub id : String
  pub endpoint : IpEndpoint
  pub has_channel : Bool
  pub failed_requests_count : ℕ
  pub failed_try_conn_count : ℕ

abbrev pub max_try_conn_count : ℕ
max_try_conn_count = 3

abbrev pub failed_comms_before_stale : ℕ
failed_comms_before_stale = 2

abbrev pub endpoint_eq : IpEndpoint → IpEndpoint → Bool
endpoint_eq a b = str_eq a.address b.address && str_eq a.port b.port

abbrev pub node_eq : Node → Node → Bool
node_eq a b = hash_eq a.id_hash b.id_hash && endpoint_eq a.endpoint b.endpoint

abbrev pub same_id : Node → Hash160 → Bool
same_id n id = hash_eq n.id_hash id

abbrev pub is_stale : Node → Bool
is_stale n = n.failed_requests_count == failed_comms_before_stale

abbrev pub open_channel : Node → Node
open_channel n = if n.has_channel then n else record n { has_channel = true }

abbrev pub init_req_failures_count : Node → Node
init_req_failures_count n = record n { failed_requests_count = 0 }

abbrev pub inc_req_failures_count : Node → Node
inc_req_failures_count n = record n { failed_requests_count = n.failed_requests_count + 1 }

abbrev pub on_state : ChannelState → Node → Bool × Node
on_state ready n = (true, record n { failed_try_conn_count = 0 })
on_state connecting n = (false, record n { failed_try_conn_count = n.failed_try_conn_count + 1 })
on_state other n = (false, n)

-- A channel is asked for its state only while the tries have not run out.
unfoldable pub is_alive : ChannelState → Node → Bool × Node
is_alive s n =
    if not n.has_channel || ltb max_try_conn_count n.failed_try_conn_count
    then (false, n)
    else on_state s n

abbrev pub distance : Node → Hash160 → Hash160
distance n h = hash_xor n.id_hash h

-- The tries that `is_alive` counts over a history of channel states.
unfoldable pub watch : List ChannelState → Node → Node
watch [] n = n
watch (s ∷ ss) n = watch ss (is_alive s n).1

-- The count of failed tries never passes the limit by more than one.
pub watch-bounded :
    (ss : List ChannelState) (n : Node)
    → n.failed_try_conn_count ≤ max_try_conn_count + 1
    → (watch ss n).failed_try_conn_count ≤ max_try_conn_count + 1
unfolding watch is_alive
watch-bounded [] n h = h
watch-bounded (ready ∷ ss) n h = watch-bounded ss _ (ground arith)
watch-bounded (connecting ∷ ss) n h = watch-bounded ss _ (ground arith)
watch-bounded (other ∷ ss) n h = watch-bounded ss _ (ground arith)
