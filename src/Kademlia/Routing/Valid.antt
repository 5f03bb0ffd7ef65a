-- ===== src/Kademlia/Routing/Valid.antt =====
-- The buckets of a routing table partition the id space, and every operation keeps it so.
use gruut.Base.{
  ℕ, zero, suc, ◌+◌, ◌≤◌, ◌<◌, ◌≡◌, refl, ap, subst, ◌∙◌, inl, inr, Bool, true, false, none, some,
  List, [], ◌∷◌, arith, if◌then◌else◌, All, All-imp, length, find_index_found, get_elem?, modify,
  find_index, Option-cases,
}
use gruut.Kademlia.Hash.{Hash160, BitSet, keysize_bits, to_bit_set}
use gruut.Kademlia.Node.{Node}
use gruut.Kademlia.KBucket.{KBucket, can_hold_node, can_hold_bits, split, agree}
use gruut.Kademlia.KBucket.Range.{
  SameRange, split_cover, split_mine, split_fields, can_hold_bits-SameRange,
}
use gruut.Kademlia.KBucket.Valid.{IsValid as BucketIsValid}
use gruut.Kademlia.KBucket.Valid.{split-IsValid}
use gruut.Kademlia.Routing.{RoutingTable, new_table, index_in, split_at}

-- The buckets that can hold an id.
abbrev pub holders : BitSet → List KBucket → ℕ
holders q [] = 0
holders q (b ∷ bs) = (if can_hold_bits b q then 1 else 0) + holders q bs

abbrev pub last_holds : BitSet → List KBucket → Bool
last_holds q [] = false
last_holds q (b ∷ []) = can_hold_bits b q
last_holds q (b ∷ c ∷ bs) = last_holds q (c ∷ bs)

abbrev pub my_bits : RoutingTable → BitSet
my_bits rt = to_bit_set rt.my_node.id_hash

-- A bucket of a table of n buckets.
pub record IsBucket (me : Node) (n : ℕ) (b : KBucket) : Type 0 where
  pub valid : BucketIsValid b
  pub mine : b.my_node ≡ me
  pub short : b.prefix_size < n

pub record IsValid (rt : RoutingTable) : Type 0 where
  pub buckets : All (IsBucket rt.my_node (length rt.buckets)) rt.buckets
  pub partition : (q : BitSet) → holders q rt.buckets ≡ 1
  pub size : length rt.buckets ≤ keysize_bits
  pub own : last_holds (my_bits rt) rt.buckets ≡ true

pub new_table-IsValid : (node : Node) (ksize : ℕ) → IsValid (new_table node ksize)
unfolding new_table agree
new_table-IsValid node ksize = record {
  buckets = (
    record {
      valid = record { held = tt; waiting = tt; room = omega arith; levels = refl };
      mine = refl;
      short = omega arith;
    },
    tt,
  );
  partition = λ q. refl;
  size = omega arith;
  own = refl;
}

pub ranges-modify :
    (q : BitSet) (i : ℕ) (f : KBucket → KBucket) (bs : List KBucket)
    → ((b : KBucket) → SameRange b (f b))
    → (holders q (modify i f bs) ≡ holders q bs) × (last_holds q (modify i f bs) ≡ last_holds q bs)
ranges-modify q i f [] s = (refl, refl)
ranges-modify q zero f (b ∷ []) s = ground (arith, can_hold_bits-SameRange b (f b) q (s b))
ranges-modify q zero f (b ∷ c ∷ bs) s = ground (arith, can_hold_bits-SameRange b (f b) q (s b))
ranges-modify q (suc i) f (b ∷ []) s = (refl, refl)
ranges-modify q (suc zero) f (b ∷ c ∷ bs) s = ground (arith, ranges-modify q zero f (c ∷ bs) s)
ranges-modify q (suc (suc i)) f (b ∷ c ∷ bs) s =
    ground (arith, ranges-modify q (suc i) f (c ∷ bs) s)

pub length-split_at :
    (i : ℕ) (bs : List KBucket) → i < length bs → length (split_at i bs) ≡ suc (length bs)
length-split_at i [] h = elim h [ ]
length-split_at zero (b ∷ bs) h = refl
length-split_at (suc i) (b ∷ bs) h = ap suc (length-split_at i bs (omega arith))

module _ (me : Node) (n : ℕ) (small : n ≤ keysize_bits) where
  pub holders-split_at :
      (q : BitSet) (i : ℕ) (bs : List KBucket)
      → All (IsBucket me n) bs
      → holders q (split_at i bs) ≡ holders q bs
  holders-split_at q i [] a = refl
  holders-split_at q zero (b ∷ bs) a =
      let h = a.0.short in omega (arith, split_cover b q (omega arith))
  holders-split_at q (suc i) (b ∷ bs) a = omega (arith, holders-split_at q i bs a.1)

  split-IsBucket :
      (b : KBucket)
      → IsBucket me n b
      → IsBucket me (suc n) (split b).0 × IsBucket me (suc n) (split b).1
  split-IsBucket b a =
      let h = a.short in
      let low : b.prefix_size < keysize_bits = omega arith in
      let (v, w) = split-IsValid b low a.valid in
      let (m, k, s, t) = split_fields b in
      (
        record { valid = v; mine = m ∙ a.mine; short = omega arith },
        record { valid = w; mine = k ∙ a.mine; short = omega arith },
      )

  pub IsBucket-split_at :
      (i : ℕ) (bs : List KBucket)
      → All (IsBucket me n) bs
      → All (IsBucket me (suc n)) (split_at i bs)
  IsBucket-split_at i [] a = tt
  IsBucket-split_at zero (b ∷ bs) a =
      let (v, w) = split-IsBucket b a.0 in
      (v, (w, All-imp (IsBucket me n) _ bs (λ c x. later c x) a.1))
    where
      later : (c : KBucket) → IsBucket me n c → IsBucket me (suc n) c
      later c x = record { valid = x.valid; mine = x.mine; short = let h = x.short in omega arith }
  IsBucket-split_at (suc i) (b ∷ bs) a =
      let x = a.0 in
      (
        record { valid = x.valid; mine = x.mine; short = let h = x.short in omega arith },
        IsBucket-split_at i bs a.1,
      )

  pub last_holds-split_at :
      (i : ℕ) (bs : List KBucket)
      → All (IsBucket me n) bs
      → last_holds (to_bit_set me.id_hash) bs ≡ true
      → last_holds (to_bit_set me.id_hash) (split_at i bs) ≡ true
  last_holds-split_at i [] a h = h
  last_holds-split_at zero (b ∷ []) a h =
      let low = a.0.short in
      subst
        (λ (m : Node).
          can_hold_bits b (to_bit_set m.id_hash) ≡ true
          → can_hold_bits (split b).1 (to_bit_set m.id_hash) ≡ true)
        a.0.mine (split_mine b (omega arith)) h
  last_holds-split_at zero (b ∷ c ∷ bs) a h = h
  last_holds-split_at (suc i) (b ∷ []) a h = h
  last_holds-split_at (suc zero) (b ∷ c ∷ bs) a h = last_holds-split_at zero (c ∷ bs) a.1 h
  last_holds-split_at (suc (suc i)) (b ∷ c ∷ []) a h = h
  last_holds-split_at (suc (suc i)) (b ∷ c ∷ d ∷ bs) a h =
      last_holds-split_at (suc i) (c ∷ d ∷ bs) a.1 h

find_index-ne-none :
    (id : Hash160) (bs : List KBucket)
    → find_index (λ b. can_hold_node b id) bs ≡ none
    → holders (to_bit_set id) bs ≡ 0
find_index-ne-none id [] h = refl
find_index-ne-none id (b ∷ bs) h = ground (arith, find_index-ne-none id bs)

-- In a valid table `get_bucket_index_for` finds the bucket that can hold the id.
pub index_in_found :
    (id : Hash160) (bs : List KBucket)
    → holders (to_bit_set id) bs ≡ 1
    → (b : KBucket) × (get_elem? bs (index_in bs id) ≡ some b) × (can_hold_node b id ≡ true)
index_in_found id bs h = elim (Option-cases (find_index (λ b. can_hold_node b id) bs)) [
  | inl e ↦ absurd (omega (arith, find_index-ne-none id bs e))
  | inr (i, e) ↦ rw (index_in, e) (find_index_found _ bs i e)
]
