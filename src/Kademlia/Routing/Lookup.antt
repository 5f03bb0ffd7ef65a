-- ===== src/Kademlia/Routing/Lookup.antt =====
-- findNode looks into one bucket only, and that is enough.
use gruut.Base.{
  ℕ, zero, suc, ◌<◌, ◌≡◌, refl, subst, inl, inr, true, false, none, some, List, [], ◌∷◌, arith, All,
  any, get_elem?, Bool-cases,
}
use gruut.Kademlia.Hash.{Hash160, to_bit_set, hash_eq-eq}
use gruut.Kademlia.Node.{Node, same_id}
use gruut.Kademlia.KBucket.{KBucket, can_hold_node}
use gruut.Kademlia.Routing.{RoutingTable, find_node, find_in}
use gruut.Kademlia.Routing.Valid.{IsBucket, IsValid, holders}
use gruut.Kademlia.Routing.Keeps.{bucket_of}

-- No node of the bucket has the hash.
abbrev pub Lacks : Hash160 → KBucket → Type 0
Lacks id b = any (λ n. same_id n id) b.nodes ≡ false

find_in-Lacks :
    (id : Hash160) (ns : List Node) → find_in id ns ≡ none → any (λ n. same_id n id) ns ≡ false
unfolding find_in
find_in-Lacks id [] h = refl
find_in-Lacks id (n ∷ ns) h = ground (arith, find_in-Lacks id ns)

-- A bucket that cannot hold an id has no node with it.
cannot_hold-Lacks :
    (id : Hash160) (b : KBucket) (ns : List Node)
    → can_hold_node b id ≡ false
    → All (λ n. can_hold_node b n.id_hash ≡ true) ns
    → any (λ n. same_id n id) ns ≡ false
cannot_hold-Lacks id b [] h a = refl
cannot_hold-Lacks id b (n ∷ ns) h a = elim (Bool-cases (same_id n id)) [
  | inl e ↦
      let same : n.id_hash ≡ id = hash_eq-eq n.id_hash id e in
      let holds : can_hold_node b id ≡ true = subst (λ x. can_hold_node b x ≡ true) same a.0 in cc
  | inr e ↦ rw (any, e) (cannot_hold-Lacks id b ns h a.1)
]

module _ (me : Node) (k : ℕ) (id : Hash160) where
  no_holder-Lacks :
      (bs : List KBucket)
      → All (IsBucket me k) bs
      → holders (to_bit_set id) bs ≡ 0
      → All (Lacks id) bs
  no_holder-Lacks [] a h = tt
  no_holder-Lacks (b ∷ bs) a h = (
    cannot_hold-Lacks id b b.nodes (ground arith) a.0.valid.held,
    no_holder-Lacks bs a.1 (ground arith),
  )

  holders_pos :
      (bs : List KBucket) (i : ℕ) (b : KBucket)
      → get_elem? bs i ≡ some b
      → can_hold_node b id ≡ true
      → 0 < holders (to_bit_set id) bs
  holders_pos [] i b h k = cc
  holders_pos (c ∷ bs) zero b h k = ground arith
  holders_pos (c ∷ bs) (suc i) b h k = omega (arith, holders_pos bs i b h k)

  one_holder-Lacks :
      (bs : List KBucket) (i : ℕ) (b : KBucket)
      → All (IsBucket me k) bs
      → holders (to_bit_set id) bs ≡ 1
      → get_elem? bs i ≡ some b
      → can_hold_node b id ≡ true
      → Lacks id b
      → All (Lacks id) bs
  one_holder-Lacks [] i b a h at holds lacks = tt
  one_holder-Lacks (c ∷ bs) zero b a h at holds lacks =
      let same : b ≡ c = cc in (subst (Lacks id) same lacks, no_holder-Lacks bs a.1 (ground arith))
  one_holder-Lacks (c ∷ bs) (suc i) b a h at holds lacks =
      let pos = holders_pos bs i b at holds in
      (
        cannot_hold-Lacks id c c.nodes (ground arith) a.0.valid.held,
        one_holder-Lacks bs i b a.1 (ground arith) at holds lacks,
      )

-- In a valid table, when `find_node` finds nothing, no bucket has a node with the hash.
pub find_node-Lacks :
    (id : Hash160) (rt : RoutingTable)
    → IsValid rt
    → find_node id rt ≡ none
    → All (Lacks id) rt.buckets
unfolding find_node
find_node-Lacks id rt v h =
    let (b, at, holds) = bucket_of id rt v in
    one_holder-Lacks rt.my_node _ id rt.buckets _ b v.buckets (v.partition (to_bit_set id)) at holds
      (find_in-Lacks id b.nodes (rw (find_node, at) at h))

find_in-same_id :
    (id : Hash160) (ns : List Node) (n : Node) → find_in id ns ≡ some n → n.id_hash ≡ id
unfolding find_in
find_in-same_id id [] n h = cc
find_in-same_id id (m ∷ ns) n h = elim (Bool-cases (same_id m id)) [
  | inl e ↦
      let same : m ≡ n = ground arith in
      subst (λ (x : Node). x.id_hash ≡ id) same (hash_eq-eq m.id_hash id e)
  | inr e ↦ find_in-same_id id ns n (ground arith)
]
