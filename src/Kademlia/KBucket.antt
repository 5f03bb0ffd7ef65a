-- ===== src/Kademlia/KBucket.antt =====
-- One bucket of the routing table: src/plugins/net_plugin/kademlia/kbucket.cpp. The time of the last
-- update, which no operation reads, is not modelled.
pub mod Halves
pub mod Valid
pub mod Range
use gruut.Base.{
  ℕ, zero, suc, ◌+◌, ◌-◌, String, Bool, true, false, not, ◌&&◌, ◌||◌, Option, none, some, List, [],
  ◌∷◌, ◌++◌, ◌==◌, if◌then◌else◌, length, find_index, get_elem?,
}
use gruut.Kademlia.Hash.{Hash160, BitSet, to_bit_set, keysize_bits}
use gruut.Kademlia.Node.{Node, ChannelState, node_eq, same_id, open_channel, is_alive}

pub record KBucket : Type 0 where
  pub my_node : Node
  pub nodes : List Node
  pub replacement_nodes : List Node
  pub depth : ℕ
  pub ksize : ℕ
  pub prefix : BitSet
  pub prefix_size : ℕ

unfoldable pub new : Node → ℕ → ℕ → KBucket
new node depth ksize = record {
  my_node = node;
  nodes = [];
  replacement_nodes = [];
  depth = depth;
  ksize = ksize;
  prefix = λ i. false;
  prefix_size = 0;
}

abbrev pub full : KBucket → Bool
full b = length b.nodes == b.ksize

-- m_nodes.erase(found), for the element at a position; out of range nothing goes.
abbrev pub erase_at : ℕ → List Node → List Node
erase_at i [] = []
erase_at zero (n ∷ ns) = ns
erase_at (suc i) (n ∷ ns) = n ∷ erase_at i ns

add_new : Node → KBucket → Bool × KBucket
add_new node b =
    if full b
    then (false, record b { replacement_nodes = b.replacement_nodes ++ node ∷ [] })
    else (true, record b { nodes = b.nodes ++ open_channel node ∷ [] })

-- A known node moves to the end; a new one goes there if there is room, and else to the replacements.
unfoldable pub add_node : Node → KBucket → Bool × KBucket
unfolding add_new
add_node node b = elim (find_index (λ n. node_eq n node) b.nodes) [
  | none ↦ add_new node b
  | some i ↦ (true, record b { nodes = erase_at i b.nodes ++ open_channel node ∷ [] })
]

abbrev pub last? : List Node → Option Node
last? [] = none
last? (n ∷ []) = some n
last? (n ∷ m ∷ ns) = last? (m ∷ ns)

abbrev pub drop_last : List Node → List Node
drop_last [] = []
drop_last (n ∷ []) = []
drop_last (n ∷ m ∷ ns) = n ∷ drop_last (m ∷ ns)

-- The newest replacement takes a place that is free.
abbrev pub promote : KBucket → KBucket
promote b = elim (last? b.replacement_nodes) [
  | none ↦ b
  | some n ↦ record b {
    nodes = b.nodes ++ open_channel n ∷ [];
    replacement_nodes = drop_last b.replacement_nodes;
  }
]

-- removeNode of an iterator
unfoldable pub remove_at : ℕ → KBucket → KBucket
remove_at i b = promote (record b { nodes = erase_at i b.nodes })

abbrev pub remove_replacement : Hash160 → KBucket → KBucket
remove_replacement id b = elim (find_index (λ n. same_id n id) b.replacement_nodes) [
  | none ↦ b
  | some i ↦ record b { replacement_nodes = erase_at i b.replacement_nodes }
]

-- removeNode of a node, which is found by its hash
unfoldable pub remove_node : Hash160 → KBucket → KBucket
unfolding remove_at
remove_node id b = elim (find_index (λ n. same_id n id) b.nodes) [
  | none ↦ remove_replacement id b
  | some i ↦ remove_at i b
]

abbrev pub bit_eq : Bool → Bool → Bool
bit_eq true c = c
bit_eq false c = not c

-- The first n bits, from the highest, agree. (At n = 160 the loop of the source would not end.)
unfoldable pub agree : ℕ → BitSet → BitSet → Bool
agree zero p q = true
agree (suc n) p q = bit_eq (p (keysize_bits - 1 - n)) (q (keysize_bits - 1 - n)) && agree n p q

abbrev pub can_hold_bits : KBucket → BitSet → Bool
can_hold_bits b id_bits = agree b.prefix_size b.prefix id_bits

abbrev pub can_hold_node : KBucket → Hash160 → Bool
can_hold_node b node = can_hold_bits b (to_bit_set node)

-- bitset::set and bitset::reset
abbrev pub with_bit : BitSet → ℕ → Bool → BitSet
with_bit p i v j = if j == i then v else p j

-- The half of a split bucket whose next bit is v.
unfoldable pub half : KBucket → Bool → KBucket
unfolding new
half b v = record (new b.my_node (b.depth + 1) b.ksize) {
  prefix = with_bit b.prefix (keysize_bits - 1 - b.prefix_size) v;
  prefix_size = suc b.prefix_size;
}

-- Each node goes to the first bucket if that can hold it, and else to the second.
abbrev pub held_by : (Node → Bool) → List Node → List Node
held_by p [] = []
held_by p (n ∷ ns) = let rest = held_by p ns in if p n then n ∷ rest else rest

abbrev pub fill : KBucket → (Node → Bool) → KBucket → KBucket
fill b p h = record h {
  nodes = held_by p b.nodes;
  replacement_nodes = held_by p b.replacement_nodes;
}

-- The bucket of the own id is the second.
unfoldable pub split : KBucket → KBucket × KBucket
split b =
    let mine = to_bit_set b.my_node.id_hash (keysize_bits - 1 - b.prefix_size) in
    let one = half b (not mine) in
    let two = half b mine in
    (
      fill b (λ n. can_hold_node one n.id_hash) one,
      fill b (λ n. not (can_hold_node one n.id_hash)) two,
    )

-- The states of the channels, as `GetState` gives them.
module _ (state : Node → ChannelState) where
  -- Each node is asked in turn, and keeps what that changes in it.
  unfoldable pub select_alive_nodes : Bool → List Node → List Node × List Node
  select_alive_nodes force [] = ([], [])
  select_alive_nodes force (n ∷ ns) =
      let (alive, all) = select_alive_nodes force ns in
      if force
      then (n ∷ alive, n ∷ all)
      else (if (is_alive (state n) n).0
          then ((is_alive (state n) n).1 ∷ alive, (is_alive (state n) n).1 ∷ all)
          else (alive, (is_alive (state n) n).1 ∷ all))

  -- The hashes of the dead nodes, and the nodes that stay.
  dead_nodes : List Node → List Hash160 × List Node
  dead_nodes [] = ([], [])
  dead_nodes (n ∷ ns) =
      let (dead, all) = dead_nodes ns in
      if (is_alive (state n) n).0
      then (dead, (is_alive (state n) n).1 ∷ all)
      else (n.id_hash ∷ dead, all)

  abbrev some_hashes : List Hash160 → Option (List Hash160)
  some_hashes [] = none
  some_hashes (h ∷ hs) = some (h ∷ hs)

  unfoldable pub remove_dead_nodes : KBucket → Option (List Hash160) × KBucket
  unfolding dead_nodes
  remove_dead_nodes b =
      let (dead, all) = dead_nodes b.nodes in (some_hashes dead, record b { nodes = all })
