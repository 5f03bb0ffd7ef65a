-- ===== src/Kademlia/Routing/TimeOut.antt =====
-- peerTimedOut keeps the routing table valid.
use gruut.Base.{
  ℕ, suc, ◌≡◌, refl, ap, subst, ◌∙◌, inl, inr, Bool, true, some, List, [], ◌∷◌, All, All-modify,
  length, length-modify, get_elem?, get_elem?-lt-length, find_index, find_index_found, Bool-cases,
  Option-cases,
}
use gruut.Kademlia.Hash.{Hash160, BitSet}
use gruut.Kademlia.Node.{Node, same_id, is_stale, inc_req_failures_count}
use gruut.Kademlia.KBucket.{KBucket, can_hold_node}
use gruut.Kademlia.KBucket.Valid.{IsValid as BucketIsValid, remove_at-IsValid}
use gruut.Kademlia.KBucket.Range.{SameRange, remove_at-SameRange, can_hold_bits-SameRange}
use gruut.Kademlia.Routing.Keeps.{IsBucket-SameRange}
use gruut.Kademlia.Routing.{
  time_out_at, time_out_in, in_front, time_out_from, peer_timed_out, RoutingTable, time_out,
}
use gruut.Kademlia.Routing.Valid.{IsBucket, IsValid, holders, last_holds}

time_out-IsValid :
    (i : ℕ) (n : Node) (b : KBucket)
    → get_elem? b.nodes i ≡ some n
    → BucketIsValid b
    → BucketIsValid (time_out i n b).1
time_out-IsValid i n b at v = elim (Bool-cases (is_stale n)) [
  | inl e ↦ rw (time_out, e) (remove_at-IsValid i b (get_elem?-lt-length b.nodes i n at) v)
  | inr e ↦
      rw (time_out, e)
        (record {
          held =
              All-modify (λ (x : Node). can_hold_node b x.id_hash ≡ true) i inc_req_failures_count
                b.nodes (λ x at' h. h) v.held;
          waiting = v.waiting;
          room = rw length-modify v.room;
          levels = v.levels;
        })
]

time_out-SameRange : (i : ℕ) (n : Node) (b : KBucket) → SameRange b (time_out i n b).1
time_out-SameRange i n b = elim (Bool-cases (is_stale n)) [
  | inl e ↦ rw (time_out, e) (remove_at-SameRange i b)
  | inr e ↦
      rw (time_out, e) (record { prefix = refl; prefix_size = refl; my_node = refl; depth = refl })
]

-- A bucket after the call: of the same range, and valid if it was.
abbrev Kept : KBucket → KBucket → Type 0
Kept b c = SameRange b c × (BucketIsValid b → BucketIsValid c)

Kept-refl : (b : KBucket) → Kept b b
Kept-refl b = (record { prefix = refl; prefix_size = refl; my_node = refl; depth = refl }, λ v. v)

abbrev AllKept : List KBucket → List KBucket → Type 0
AllKept [] [] = Unit
AllKept [] (c ∷ cs) = ⊥
AllKept (b ∷ bs) [] = ⊥
AllKept (b ∷ bs) (c ∷ cs) = Kept b c × AllKept bs cs

AllKept-refl : (bs : List KBucket) → AllKept bs bs
AllKept-refl [] = tt
AllKept-refl (b ∷ bs) = (Kept-refl b, AllKept-refl bs)

length-AllKept : (bs cs : List KBucket) → AllKept bs cs → length cs ≡ length bs
length-AllKept [] [] k = refl
length-AllKept [] (c ∷ cs) k = absurd k
length-AllKept (b ∷ bs) [] k = absurd k
length-AllKept (b ∷ bs) (c ∷ cs) k = ap suc (length-AllKept bs cs k.1)

holders-AllKept : (q : BitSet) (bs cs : List KBucket) → AllKept bs cs → holders q cs ≡ holders q bs
holders-AllKept q [] [] k = refl
holders-AllKept q [] (c ∷ cs) k = absurd k
holders-AllKept q (b ∷ bs) [] k = absurd k
holders-AllKept q (b ∷ bs) (c ∷ cs) k =
    rw (can_hold_bits-SameRange b c q k.0.0, holders-AllKept q bs cs k.1)

last_holds-AllKept :
    (q : BitSet) (bs cs : List KBucket) → AllKept bs cs → last_holds q cs ≡ last_holds q bs
last_holds-AllKept q [] [] k = refl
last_holds-AllKept q [] (c ∷ cs) k = absurd k
last_holds-AllKept q (b ∷ bs) [] k = absurd k
last_holds-AllKept q (b ∷ []) (c ∷ []) k = can_hold_bits-SameRange b c q k.0.0
last_holds-AllKept q (b ∷ []) (c ∷ d ∷ cs) k = absurd k.1
last_holds-AllKept q (b ∷ e ∷ bs) (c ∷ []) k = absurd k.1
last_holds-AllKept q (b ∷ e ∷ bs) (c ∷ d ∷ cs) k = last_holds-AllKept q (e ∷ bs) (d ∷ cs) k.1

IsBucket-AllKept :
    (me : Node) (n : ℕ) (bs cs : List KBucket)
    → AllKept bs cs
    → All (IsBucket me n) bs
    → All (IsBucket me n) cs
IsBucket-AllKept me n [] [] k a = tt
IsBucket-AllKept me n [] (c ∷ cs) k a = absurd k
IsBucket-AllKept me n (b ∷ bs) [] k a = absurd k
IsBucket-AllKept me n (b ∷ bs) (c ∷ cs) k a =
    (IsBucket-SameRange me n b c k.0.0 (k.0.1 a.0.valid) a.0, IsBucket-AllKept me n bs cs k.1 a.1)

time_out_in-Kept :
    (id : Hash160) (b : KBucket) (r : Bool × KBucket) → time_out_in id b ≡ some r → Kept b r.1
time_out_in-Kept id b r h = elim (Option-cases (find_index (λ n. same_id n id) b.nodes)) [
  | inl e ↦ let h' = rw (time_out_in, e) at h in cc
  | inr (i, e) ↦
      let (n, at, _) = find_index_found _ b.nodes i e in
      let timed : some (time_out i n b) ≡ some r = rw (time_out_in, e, time_out_at, at) at h in
      let same : time_out i n b ≡ r = cc in
      subst (λ (x : Bool × KBucket). Kept b x.1) same
        (time_out-SameRange i n b, time_out-IsValid i n b at)
]

time_out_from-AllKept :
    (id : Hash160) (bs : List KBucket) (r : Bool × List KBucket)
    → time_out_from id bs ≡ some r
    → AllKept bs r.1
unfolding time_out_from
time_out_from-AllKept id [] r h = cc
time_out_from-AllKept id (b ∷ bs) r h = elim (Option-cases (time_out_from id bs)) [
  | inr (s, e) ↦
      let later : in_front b s ≡ some r = rw (time_out_from, e) at h in
      let same : (s.0, b ∷ s.1) ≡ r = cc in
      subst (λ (x : Bool × List KBucket). AllKept (b ∷ bs) x.1) same
        (Kept-refl b, time_out_from-AllKept id bs s e)
  | inl e ↦ elim (Option-cases (time_out_in id b)) [
    | inl e' ↦ let h' = rw (time_out_from, e, e') at h in cc
    | inr (s, e') ↦
        let here : some (s.0, s.1 ∷ bs) ≡ some r = rw (time_out_from, e, e') at h in
        let same : (s.0, s.1 ∷ bs) ≡ r = cc in
        subst (λ (x : Bool × List KBucket). AllKept (b ∷ bs) x.1) same
          (time_out_in-Kept id b s e', AllKept-refl bs)
  ]
]

-- `peer_timed_out` keeps the table valid, whether it removes the peer, counts a failure of it, or
-- does not find it.
pub peer_timed_out-IsValid :
    (id : Hash160) (rt : RoutingTable) → IsValid rt → IsValid (peer_timed_out id rt).1
unfolding peer_timed_out
peer_timed_out-IsValid id rt v = elim (Option-cases (time_out_from id rt.buckets)) [
  | inl e ↦ rw (peer_timed_out, e) v
  | inr (s, e) ↦
      let k = time_out_from-AllKept id rt.buckets s e in
      rw (peer_timed_out, e)
        (record {
          buckets =
              rw (length-AllKept rt.buckets s.1 k)
                (IsBucket-AllKept _ _ rt.buckets s.1 k v.buckets);
          partition = λ q. holders-AllKept q rt.buckets s.1 k ∙ v.partition q;
          size = rw (length-AllKept rt.buckets s.1 k) v.size;
          own = last_holds-AllKept _ rt.buckets s.1 k ∙ v.own;
        })
]
