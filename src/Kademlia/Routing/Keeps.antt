-- ===== src/Kademlia/Routing/Keeps.antt =====
-- Every operation of the routing table keeps it valid.
use gruut.Base.{
  ℕ, ◌<◌, ◌≡◌, subst, ◌∙◌, inl, inr, Bool, true, false, some, arith, All-modify, length,
  length-modify, get_elem?, get_elem?-lt-length, modify, Bool-cases,
}
use gruut.Kademlia.Hash.{Hash160, keysize_bits, to_bit_set}
use gruut.Kademlia.Node.{Node, node_eq, init_req_failures_count}
use gruut.Kademlia.KBucket.{KBucket, add_node, remove_node, can_hold_node}
use gruut.Kademlia.KBucket.Valid.{IsValid as BucketIsValid, add_node-IsValid, remove_node-IsValid}
use gruut.Kademlia.KBucket.Range.{SameRange, add_node-SameRange, remove_node-SameRange}
use gruut.Kademlia.Routing.{
  RoutingTable, get_bucket_index_for, can_split, split_at, split_if, add_in, add_to, add_peer,
  remove_peer,
}
use gruut.Kademlia.Routing.Valid.{
  IsBucket, IsValid, ranges-modify, length-split_at, holders-split_at, IsBucket-split_at,
  last_holds-split_at, index_in_found,
}

pub IsBucket-SameRange :
    (me : Node) (n : ℕ) (b c : KBucket)
    → SameRange b c
    → BucketIsValid c
    → IsBucket me n b
    → IsBucket me n c
IsBucket-SameRange me n b c s v x = record {
  valid = v;
  mine = s.my_node ∙ x.mine;
  short = let h = x.short in omega (arith, s.prefix_size);
}

-- A change of one bucket that keeps its range and the bucket valid.
modify-IsValid :
    (i : ℕ) (f : KBucket → KBucket) (rt : RoutingTable)
    → ((b : KBucket) → SameRange b (f b))
    → ((b : KBucket) → get_elem? rt.buckets i ≡ some b → BucketIsValid b → BucketIsValid (f b))
    → IsValid rt
    → IsValid (record rt { buckets = modify i f rt.buckets })
modify-IsValid i f rt same keep v = record {
  buckets = rw length-modify (
      All-modify (IsBucket rt.my_node (length rt.buckets)) i f rt.buckets
        (λ b at x. IsBucket-SameRange _ _ b (f b) (same b) (keep b at x.valid) x) v.buckets);
  partition = λ q. (ranges-modify q i f rt.buckets same).0 ∙ v.partition q;
  size = rw length-modify v.size;
  own = (ranges-modify _ i f rt.buckets same).1 ∙ v.own;
}

split_at-IsValid :
    (i : ℕ) (rt : RoutingTable)
    → i < length rt.buckets
    → length rt.buckets < keysize_bits
    → IsValid rt
    → IsValid (record rt { buckets = split_at i rt.buckets })
split_at-IsValid i rt h k v = record {
  buckets =
      rw (length-split_at i rt.buckets h)
        (IsBucket-split_at rt.my_node (length rt.buckets) v.size i rt.buckets v.buckets);
  partition = λ q.
      holders-split_at rt.my_node (length rt.buckets) v.size q i rt.buckets v.buckets
      ∙ v.partition q;
  size = rw (length-split_at i rt.buckets h) k;
  own = last_holds-split_at rt.my_node (length rt.buckets) v.size i rt.buckets v.buckets v.own;
}

split_if-IsValid :
    (i : ℕ) (done : Bool) (b : KBucket) (rt : RoutingTable)
    → i < length rt.buckets
    → IsValid rt
    → IsValid (split_if i done b rt).1
unfolding split_if
split_if-IsValid i true b rt h v = v
split_if-IsValid i false b rt h v = elim (Bool-cases (can_split i b (length rt.buckets))) [
  | inl e ↦ rw e (split_at-IsValid i rt h (ground arith) v)
  | inr e ↦ rw e v
]

-- The bucket that an id goes to can hold it.
pub bucket_of :
    (id : Hash160) (rt : RoutingTable)
    → IsValid rt
    → (b : KBucket) × (get_elem? rt.buckets (get_bucket_index_for id rt) ≡ some b)
      × (can_hold_node b id ≡ true)
bucket_of id rt v = index_in_found id rt.buckets (v.partition (to_bit_set id))

add_to-IsValid :
    (peer : Node) (rt : RoutingTable)
    → IsValid rt
    → IsValid (add_to (get_bucket_index_for peer.id_hash rt) peer rt).1
unfolding add_to
add_to-IsValid peer rt v =
    let (b, at, holds) = bucket_of peer.id_hash rt v in
    let i = get_bucket_index_for peer.id_hash rt in
    rw (add_to, at)
      (split_if-IsValid i (add_node peer b).0 (add_node peer b).1 (add_in i peer rt)
        (rw length-modify (get_elem?-lt-length rt.buckets i b at))
        (modify-IsValid i (λ c. (add_node peer c).1) rt (add_node-SameRange peer)
          (λ c at' w.
            add_node-IsValid peer c w (
              let same : b ≡ c = cc in subst (λ x. can_hold_node x peer.id_hash ≡ true) same holds))
          v))

-- `add_peer` keeps the table valid, whether the bucket takes the peer, is full, or is split.
pub add_peer-IsValid : (peer : Node) (rt : RoutingTable) → IsValid rt → IsValid (add_peer peer rt).1
unfolding add_peer
add_peer-IsValid peer rt v = elim (Bool-cases (node_eq rt.my_node peer)) [
  | inl me ↦ rw me v
  | inr ot ↦ rw ot (add_to-IsValid (init_req_failures_count peer) rt v)
]

-- `remove_peer` keeps the table valid.
pub remove_peer-IsValid :
    (id : Hash160) (rt : RoutingTable) → IsValid rt → IsValid (remove_peer id rt)
unfolding remove_peer
remove_peer-IsValid id rt v =
    modify-IsValid _ (remove_node id) rt (remove_node-SameRange id)
      (λ b at w. remove_node-IsValid id b w) v
