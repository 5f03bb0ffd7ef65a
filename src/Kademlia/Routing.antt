-- ===== src/Kademlia/Routing.antt =====
-- The routing table: src/plugins/net_plugin/kademlia/routing.cpp.
pub mod Valid
pub mod Keeps
pub mod TimeOut
pub mod Neighbors
pub mod Lookup
use gruut.Base.{
  ℕ, zero, suc, ◌+◌, ◌-◌, ◌%◌, Bool, true, false, not, ◌&&◌, ◌||◌, Option, none, some, List, [],
  ◌∷◌, ◌++◌, ltb, ◌==◌, if◌then◌else◌, length, find_index, get_elem?, modify,
}
use gruut.Kademlia.Hash.{Hash160, keysize_bits}
use gruut.Kademlia.Node.{
  Node, node_eq, same_id, is_stale, init_req_failures_count, inc_req_failures_count,
}
use gruut.Kademlia.KBucket.{KBucket, new, add_node, remove_node, remove_at, split, can_hold_node}

pub record RoutingTable : Type 0 where
  pub my_node : Node
  pub ksize : ℕ
  pub buckets : List KBucket

unfoldable pub new_table : Node → ℕ → RoutingTable
unfolding new
new_table node ksize = record { my_node = node; ksize = ksize; buckets = new node 0 ksize ∷ [] }

abbrev pub total : List KBucket → ℕ
total [] = 0
total (b ∷ bs) = length b.nodes + total bs

abbrev pub nodes_count : RoutingTable → ℕ
nodes_count rt = total rt.buckets

abbrev pub index_in : List KBucket → Hash160 → ℕ
index_in bs node = elim (find_index (λ b. can_hold_node b node) bs) [
  | none ↦ length bs - 1
  | some i ↦ i
]

abbrev pub get_bucket_index_for : Hash160 → RoutingTable → ℕ
get_bucket_index_for node rt = index_in rt.buckets node

abbrev pub depth_b : ℕ
depth_b = 5

-- Bucket `index` of n may be split: it is the last or its depth is 1 to 4, there are fewer than 160
-- buckets, and it is not the first of several.
abbrev pub can_split : ℕ → KBucket → ℕ → Bool
can_split index b n =
    ((index == (n - 1)) || (ltb b.depth depth_b && not ((b.depth % depth_b) == 0)))
    && (ltb n keysize_bits && not (ltb 1 n && index == 0))

abbrev pub split_at : ℕ → List KBucket → List KBucket
split_at i [] = []
split_at zero (b ∷ bs) = (split b).0 ∷ (split b).1 ∷ bs
split_at (suc i) (b ∷ bs) = b ∷ split_at i bs

-- The bucket, after its addNode, of a table that holds it; addNode has failed if the flag is false.
split_if : ℕ → Bool → KBucket → RoutingTable → Bool × RoutingTable
split_if i true b rt = (true, rt)
split_if i false b rt =
    if can_split i b (length rt.buckets)
    then (true, record rt { buckets = split_at i rt.buckets })
    else (false, rt)

abbrev pub add_in : ℕ → Node → RoutingTable → RoutingTable
add_in i peer rt = record rt { buckets = modify i (λ b. (add_node peer b).1) rt.buckets }

add_to : ℕ → Node → RoutingTable → Bool × RoutingTable
unfolding split_if
add_to i peer rt = elim (get_elem? rt.buckets i) [
  | none ↦ (false, rt)
  | some b ↦ split_if i (add_node peer b).0 (add_node peer b).1 (add_in i peer rt)
]

unfoldable pub add_peer : Node → RoutingTable → Bool × RoutingTable
unfolding add_to
add_peer peer rt =
    if node_eq rt.my_node peer
    then (true, rt)
    else add_to (get_bucket_index_for peer.id_hash rt) (init_req_failures_count peer) rt

unfoldable pub remove_peer : Hash160 → RoutingTable → RoutingTable
remove_peer id rt = record rt {
  buckets = modify (get_bucket_index_for id rt) (remove_node id) rt.buckets;
}

-- A stale node goes; another counts one more failure.
abbrev pub time_out : ℕ → Node → KBucket → Bool × KBucket
time_out i n b =
    if is_stale n
    then (true, remove_at i b)
    else (false, record b { nodes = modify i inc_req_failures_count b.nodes })

abbrev pub time_out_at : ℕ → KBucket → Option (Bool × KBucket)
time_out_at i b = elim (get_elem? b.nodes i) [ none ↦ none | some n ↦ some (time_out i n b) ]

abbrev pub time_out_in : Hash160 → KBucket → Option (Bool × KBucket)
time_out_in id b = elim (find_index (λ n. same_id n id) b.nodes) [
  | none ↦ none
  | some i ↦ time_out_at i b
]

abbrev pub in_front : KBucket → Bool × List KBucket → Option (Bool × List KBucket)
in_front b (r, bs) = some (r, b ∷ bs)

abbrev pub with_rest : List KBucket → Option (Bool × KBucket) → Option (Bool × List KBucket)
with_rest bs none = none
with_rest bs (some (r, b)) = some (r, b ∷ bs)

-- The buckets are searched from the last to the first.
unfoldable pub time_out_from : Hash160 → List KBucket → Option (Bool × List KBucket)
time_out_from id [] = none
time_out_from id (b ∷ bs) = elim (time_out_from id bs) [
  | some r ↦ in_front b r
  | none ↦ with_rest bs (time_out_in id b)
]

unfoldable pub peer_timed_out : Hash160 → RoutingTable → Bool × RoutingTable
peer_timed_out id rt = elim (time_out_from id rt.buckets) [
  | none ↦ (false, rt)
  | some (r, bs) ↦ (r, record rt { buckets = bs })
]

unfoldable pub find_in : Hash160 → List Node → Option Node
find_in id [] = none
find_in id (n ∷ ns) = if same_id n id then some n else find_in id ns

unfoldable pub find_node : Hash160 → RoutingTable → Option Node
find_node id rt = elim (get_elem? rt.buckets (get_bucket_index_for id rt)) [
  | none ↦ none
  | some b ↦ find_in id b.nodes
]
