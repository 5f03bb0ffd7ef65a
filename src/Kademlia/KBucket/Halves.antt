-- ===== src/Kademlia/KBucket/Halves.antt =====
-- A split bucket and its halves: an id that the bucket can hold goes to exactly one of them.
use gruut.Base.{ℕ, zero, suc, ◌-◌, ◌≤◌, ◌<◌, ◌≡◌, refl, Bool, false, not, ◌&&◌, ◌||◌, arith}
use gruut.Kademlia.Hash.{BitSet, keysize_bits}
use gruut.Kademlia.KBucket.{KBucket, agree, bit_eq, with_bit, can_hold_bits, half}

agree-with_bit :
    (m n : ℕ) (p q : BitSet) (v : Bool)
    → m ≤ n
    → n < keysize_bits
    → agree m (with_bit p (keysize_bits - 1 - n) v) q ≡ agree m p q
unfolding agree
agree-with_bit zero n p q v h k = refl
agree-with_bit (suc m) n p q v h k = ground (arith, agree-with_bit m n p q v (omega arith) k)

-- What a half can hold.
pub can_hold_bits-half :
    (b : KBucket) (v : Bool) (q : BitSet)
    → b.prefix_size < keysize_bits
    → can_hold_bits (half b v) q
      ≡ (bit_eq v (q (keysize_bits - 1 - b.prefix_size)) && can_hold_bits b q)
unfolding half agree
can_hold_bits-half b v q h =
    ground (arith, agree-with_bit b.prefix_size b.prefix_size b.prefix q v (omega arith) h)

pub halves_cover :
    (b : KBucket) (v : Bool) (q : BitSet)
    → b.prefix_size < keysize_bits
    → can_hold_bits b q ≡ (can_hold_bits (half b (not v)) q || can_hold_bits (half b v) q)
halves_cover b v q h = ground (arith, can_hold_bits-half b v q h, can_hold_bits-half b (not v) q h)

pub halves_apart :
    (b : KBucket) (v : Bool) (q : BitSet)
    → b.prefix_size < keysize_bits
    → (can_hold_bits (half b (not v)) q && can_hold_bits (half b v) q) ≡ false
halves_apart b v q h = ground (arith, can_hold_bits-half b v q h, can_hold_bits-half b (not v) q h)
