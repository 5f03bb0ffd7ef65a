-- ===== src/Kademlia/Tests.antt =====
-- Runs of the overlay on small tables, and instances of its theorems.
use gruut.Base.{ℕ, ◌+◌, ◌≤◌, ◌≡◌, refl, true, false, none, [], ◌∷◌, arith, length, All, min}
use gruut.Kademlia.Hash.{Hash160, hash_lt, hash_lt_both, hash_eq, to_bit_set}
use gruut.Kademlia.Node.{Node, connecting, other, watch, watch-bounded, max_try_conn_count}
use gruut.Kademlia.KBucket.{add_node, agree, split, half}
use gruut.Kademlia.Routing.{
  RoutingTable, new_table, add_peer, remove_peer, peer_timed_out, find_node, find_in, nodes_count,
}
use gruut.Kademlia.Routing.Valid.{IsValid, new_table-IsValid}
use gruut.Kademlia.Routing.Keeps.{add_peer-IsValid, remove_peer-IsValid}
use gruut.Kademlia.Routing.TimeOut.{peer_timed_out-IsValid}
use gruut.Kademlia.Routing.Lookup.{Lacks, find_node-Lacks}
use gruut.Kademlia.Routing.Neighbors.{find_neighbors}
use gruut.Kademlia.Routing.Neighbors.Count.{length-find_neighbors, all_others}

-- The hash whose first byte is given, and whose others are 0.
abbrev hash : ℕ → Hash160
hash x = x ∷ 0 ∷ 0 ∷ 0 ∷ 0 ∷ 0 ∷ 0 ∷ 0 ∷ 0 ∷ 0 ∷ 0 ∷ 0 ∷ 0 ∷ 0 ∷ 0 ∷ 0 ∷ 0 ∷ 0 ∷ 0 ∷ 0 ∷ []

abbrev peer : ℕ → Node
peer x = record {
  id_hash = hash x;
  id = "";
  endpoint = record { address = "a"; port = "1" };
  has_channel = false;
  failed_requests_count = 0;
  failed_try_conn_count = 0;
}

abbrev table : RoutingTable
table = new_table (peer 0) 1

table-IsValid : IsValid table
table-IsValid = new_table-IsValid (peer 0) 1

-- The second peer fills the bucket, which is split.
abbrev split_table : RoutingTable
split_table = (add_peer (peer 200) (add_peer (peer 100) table).1).1

split_table-IsValid : IsValid split_table
split_table-IsValid =
    add_peer-IsValid (peer 200) _ (add_peer-IsValid (peer 100) table table-IsValid)

split_counts : (length split_table.buckets ≡ 2) × (nodes_count split_table ≡ 1)
unfolding new_table add_peer add_node split half agree to_bit_set hash_eq
split_counts = (refl, refl)

hash_lt_both_example :
    (hash_lt (1 ∷ 2 ∷ []) (2 ∷ 1 ∷ []) ≡ true) × (hash_lt (2 ∷ 1 ∷ []) (1 ∷ 2 ∷ []) ≡ true)
hash_lt_both_example =
    hash_lt_both (1 ∷ 2 ∷ []) (2 ∷ 1 ∷ []) 0 1 refl (omega arith) (omega arith) (omega arith)
      (omega arith)

watch-bounded_example :
    (watch (connecting ∷ connecting ∷ other ∷ []) (peer 1)).failed_try_conn_count
    ≤ max_try_conn_count + 1
watch-bounded_example = watch-bounded (connecting ∷ connecting ∷ other ∷ []) (peer 1) (omega arith)

abbrev given_up : Node
given_up = record (peer 1) { has_channel = true; failed_try_conn_count = 4 }

add_peer-IsValid_example : IsValid (add_peer (peer 200) split_table).1
add_peer-IsValid_example = add_peer-IsValid (peer 200) split_table split_table-IsValid

remove_peer-IsValid_example : IsValid (remove_peer (hash 100) split_table)
remove_peer-IsValid_example = remove_peer-IsValid (hash 100) split_table split_table-IsValid

peer_timed_out-IsValid_example : IsValid (peer_timed_out (hash 100) split_table).1
peer_timed_out-IsValid_example = peer_timed_out-IsValid (hash 100) split_table split_table-IsValid

missing : find_node (hash 7) split_table ≡ none
unfolding new_table add_peer add_node split half agree to_bit_set hash_eq find_node find_in
missing = refl

find_node-Lacks_example : All (Lacks (hash 7)) split_table.buckets
find_node-Lacks_example = find_node-Lacks (hash 7) split_table split_table-IsValid missing

length-find_neighbors_example :
    length (find_neighbors (hash 7) 5 split_table) ≡ min 5 (all_others (hash 7) split_table.buckets)
length-find_neighbors_example =
    length-find_neighbors (hash 7) 5 split_table split_table-IsValid (omega arith)
