-- ===== src/Kademlia/KBucket/Range.antt =====
-- The ids that a bucket can hold: only a split changes them.
use gruut.Base.{ℕ, suc, ◌+◌, ◌-◌, ◌<◌, ◌≡◌, refl, Bool, true, arith, if◌then◌else◌}
use gruut.Kademlia.Hash.{Hash160, BitSet, keysize_bits, to_bit_set}
use gruut.Kademlia.Node.{Node}
use gruut.Kademlia.KBucket.{
  KBucket, new, add_node, add_new, remove_node, remove_at, promote, can_hold_bits, half, split,
}
use gruut.Kademlia.KBucket.Halves.{halves_cover, halves_apart, can_hold_bits-half}

-- The bucket `c` stands where `b` stood.
pub record SameRange (b c : KBucket) : Type 0 where
  pub prefix : c.prefix ≡ b.prefix
  pub prefix_size : c.prefix_size ≡ b.prefix_size
  pub my_node : c.my_node ≡ b.my_node
  pub depth : c.depth ≡ b.depth

pub add_node-SameRange : (node : Node) (b : KBucket) → SameRange b (add_node node b).1
unfolding add_node add_new
add_node-SameRange node b = ground arith

promote-SameRange : (b : KBucket) → SameRange b (promote b)
promote-SameRange b = ground arith

pub remove_at-SameRange : (i : ℕ) (b : KBucket) → SameRange b (remove_at i b)
unfolding remove_at
remove_at-SameRange i b = ground arith

pub remove_node-SameRange : (id : Hash160) (b : KBucket) → SameRange b (remove_node id b)
unfolding remove_node
remove_node-SameRange id b = ground arith

pub can_hold_bits-SameRange :
    (b c : KBucket) (q : BitSet) → SameRange b c → can_hold_bits c q ≡ can_hold_bits b q
can_hold_bits-SameRange b c q s = rw (s.prefix, s.prefix_size) refl

pub split_cover :
    (b : KBucket) (q : BitSet)
    → b.prefix_size < keysize_bits
    → (if can_hold_bits (split b).0 q then 1 else 0)
        + (if can_hold_bits (split b).1 q then 1 else 0)
      ≡ (if can_hold_bits b q then 1 else 0)
unfolding split
split_cover b q h =
    let v : Bool = to_bit_set b.my_node.id_hash (keysize_bits - 1 - b.prefix_size) in
    ground (arith, halves_cover b v q h, halves_apart b v q h)

-- The second half can hold the own id if the bucket can.
pub split_mine :
    (b : KBucket)
    → b.prefix_size < keysize_bits
    → can_hold_bits b (to_bit_set b.my_node.id_hash) ≡ true
    → can_hold_bits (split b).1 (to_bit_set b.my_node.id_hash) ≡ true
unfolding split
split_mine b h own = ground (
  arith,
  can_hold_bits-half b (to_bit_set b.my_node.id_hash (keysize_bits - 1 - b.prefix_size))
      (to_bit_set b.my_node.id_hash) h,
)

pub split_fields :
    (b : KBucket)
    → ((split b).0.my_node ≡ b.my_node)
      × ((split b).1.my_node ≡ b.my_node)
      × ((split b).0.prefix_size ≡ suc b.prefix_size)
      × ((split b).1.prefix_size ≡ suc b.prefix_size)
unfolding split half new
split_fields b = (refl, refl, refl, refl)
