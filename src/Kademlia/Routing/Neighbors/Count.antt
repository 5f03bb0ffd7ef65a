-- ===== src/Kademlia/Routing/Neighbors/Count.antt =====
-- findNeighbors returns as many nodes as there are, up to the number asked for.
use Prim.Native.Nat.{min}
use gruut.Base.{
  ℕ, zero, suc, ◌+◌, ◌-◌, ◌≤◌, ◌<◌, ◌≡◌, refl, ap, ◌∙◌, ◌⊎◌, inl, inr, ◌≢◌, Bool, true, false, not,
  ◌&&◌, ◌||◌, none, some, List, [], ◌∷◌, ◌++◌, arith, ◌==◌, if◌then◌else◌, length, length-append,
  get_elem?-lt-length, Bool-cases,
}
use gruut.Kademlia.Hash.{Hash160}
use gruut.Kademlia.Node.{Node, same_id}
use gruut.Kademlia.KBucket.{KBucket}
use gruut.Kademlia.Routing.{RoutingTable, get_bucket_index_for}
use gruut.Kademlia.Routing.Neighbors.{Walk, start, collect, next, nodes_at, visit, find_neighbors}
use gruut.Kademlia.Routing.Valid.{IsValid}
use gruut.Kademlia.Routing.Keeps.{bucket_of}

-- The nodes of a list that do not have the hash.
abbrev pub others : Hash160 → List Node → ℕ
others id [] = 0
others id (n ∷ ns) = (if same_id n id then 0 else 1) + others id ns

abbrev pub all_others : Hash160 → List KBucket → ℕ
all_others id [] = 0
all_others id (b ∷ bs) = others id b.nodes + all_others id bs

-- The inner loop ends with all nodes that there were, or early with the number asked for.
abbrev Collected : ℕ → ℕ → Bool × List Node → Type 0
Collected max count r =
    ((r.0 ≡ true) × (length r.1 ≡ max) × (max ≤ count))
    ⊎ ((r.0 ≡ false) × (length r.1 ≡ count) × (length r.1 < max))

collect-Collected :
    (id : Hash160) (max : ℕ) (acc ns : List Node) (count : ℕ)
    → length acc < max
    → count ≡ length acc + others id ns
    → Collected max count (collect id max acc ns)
unfolding collect
collect-Collected id max acc [] count h e = inr (refl, omega arith, h)
collect-Collected id max acc (n ∷ ns) count h e = elim (Bool-cases (same_id n id)) [
  | inl me ↦ rw me (collect-Collected id max acc ns count h (ground arith))
  | inr ot ↦ elim (Bool-cases (length (acc ++ n ∷ []) == max)) [
    | inl met ↦ rw (ot, met) (inl (refl, ground arith, ground (arith, length-append acc (n ∷ []))))
    | inr more ↦
        rw (ot, more)
          (collect-Collected id max (acc ++ n ∷ []) ns count
            (ground (arith, length-append acc (n ∷ [])))
            (ground (arith, length-append acc (n ∷ []))))
  ]
]

sum_below : (ℕ → ℕ) → ℕ → ℕ
sum_below c zero = 0
sum_below c (suc j) = c j + sum_below c j

sum_below_mono : (c : ℕ → ℕ) (i j : ℕ) → i ≤ j → sum_below c i ≤ sum_below c j
unfolding sum_below
sum_below_mono c i zero h = let e : i ≡ zero = omega arith in rw e (omega arith)
sum_below_mono c i (suc j) h = elim (Bool-cases (i == suc j)) [
  | inl e ↦ let e' : i ≡ suc j = ground arith in rw e' (omega arith)
  | inr e ↦ let k : i ≤ j = ground arith in omega (arith, sum_below_mono c i j k)
]

sum_below-cons : (c : ℕ → ℕ) (j : ℕ) → sum_below c (suc j) ≡ c 0 + sum_below (λ i. c (suc i)) j
unfolding sum_below
sum_below-cons c zero = refl
sum_below-cons c (suc j) = omega (arith, sum_below-cons c j)

module _ (id : Hash160) (bs : List KBucket) where
  bucket_others : ℕ → ℕ
  bucket_others i = others id (nodes_at bs i)

sum_below-bucket_others :
    (id : Hash160) (bs : List KBucket)
    → sum_below (bucket_others id bs) (length bs) ≡ all_others id bs
unfolding sum_below bucket_others nodes_at
sum_below-bucket_others id [] = refl
sum_below-bucket_others id (b ∷ bs) =
    sum_below-cons (bucket_others id (b ∷ bs)) (length bs)
    ∙ ap (λ (k : ℕ). others id b.nodes + k) (sum_below-bucket_others id bs)

abbrev went_left : Walk → Walk
went_left w = record w { left = w.left - 1; current = w.left - 1; use_left = false }

abbrev went_right : Walk → Walk
went_right w = record w { current = w.right; right = w.right + 1; use_left = true }

next_cases :
    (count : ℕ) (w : Walk)
    → ((next count w ≡ none) × (w.left ≡ 0) × (w.right ≡ count))
      ⊎ ((next count w ≡ some (went_left w)) × (0 < w.left))
      ⊎ ((next count w ≡ some (went_right w)) × (w.right ≢ count))
unfolding next
next_cases count w = elim (Bool-cases (not (w.left == 0) && (w.use_left || w.right == count))) [
  | inl l ↦ inr (inl (rw (next, l), ground arith))
  | inr l ↦ elim (Bool-cases (w.right == count)) [
    | inl r ↦ inl (rw (next, l, r), ground arith, ground arith)
    | inr r ↦ inr (inr (rw (next, l, r), ground arith))
  ]
]

sum_below-pred : (c : ℕ → ℕ) (j : ℕ) → 0 < j → sum_below c j ≡ c (j - 1) + sum_below c (j - 1)
unfolding sum_below
sum_below-pred c zero h = elim h [ ]
sum_below-pred c (suc j) h = let e : suc j - 1 ≡ j = omega arith in rw e refl

sum_below_next : (c : ℕ → ℕ) (j : ℕ) → sum_below c (j + 1) ≡ c j + sum_below c j
unfolding sum_below
sum_below_next c j = let e : j + 1 ≡ suc j = omega arith in rw e refl

-- The nodes that a walk has still to visit.
abbrev left_over : Hash160 → List KBucket → Walk → ℕ
left_over id bs w =
    bucket_others id bs w.current
    + sum_below (bucket_others id bs) w.left
    + (sum_below (bucket_others id bs) (length bs) - sum_below (bucket_others id bs) w.right)

length-visit :
    (f : ℕ) (id : Hash160) (max : ℕ) (bs : List KBucket) (w : Walk) (acc : List Node)
    → w.left + (length bs - w.right) < f
    → w.right ≤ length bs
    → length acc < max
    → length (visit f id max bs w acc) ≡ min max (length acc + left_over id bs w)
unfolding visit
length-visit zero id max bs w acc m r h = elim m [ ]
length-visit (suc f) id max bs w acc m r h =
    elim (collect-Collected id max acc (nodes_at bs w.current) (length acc + c w.current) h
      (unfold bucket_others in refl)) [
        | inl (done, met, enough) ↦ rw (visit, done) (omega (arith, met, enough))
        | inr (more, count, room) ↦ elim (next_cases (length bs) w) [
          | inl (e, l, last) ↦
              let none_left : sum_below c w.left ≡ 0 = rw l (unfold sum_below in refl) in
              let none_right : sum_below c w.right ≡ sum_below c (length bs) =
                ap (sum_below c) last in
              rw (visit, more, e) (omega (arith, count, room, none_left, none_right))
          | inr (inl (e, l)) ↦
              rw (visit, more, e)
                (length-visit f id max bs (went_left w) _ (omega arith) r room
                  ∙ omega (arith, count, room, sum_below-pred c w.left l))
          | inr (inr (e, l)) ↦
              let here : w.right + 1 ≤ length bs = omega arith in
              rw (visit, more, e)
                (length-visit f id max bs (went_right w) _ (omega arith) here room
                  ∙ omega (
                    arith,
                    count,
                    room,
                    sum_below_next c w.right,
                    sum_below_mono c (w.right + 1) (length bs) here,
                  ))
        ]
      ]
  where
    c : ℕ → ℕ
    c = bucket_others id bs

-- In a valid table, for a positive number asked for, `find_neighbors` returns as many nodes as all
-- buckets have with another hash than the one asked for, or that number, if it is less.
pub length-find_neighbors :
    (id : Hash160) (max : ℕ) (rt : RoutingTable)
    → IsValid rt
    → 0 < max
    → length (find_neighbors id max rt) ≡ min max (all_others id rt.buckets)
unfolding find_neighbors
length-find_neighbors id max rt v h =
    let (b, at, _) = bucket_of id rt v in
    let i : ℕ = get_bucket_index_for id rt in
    let lt : i < length rt.buckets = get_elem?-lt-length rt.buckets i b at in
    let c : ℕ → ℕ = bucket_others id rt.buckets in
    length-visit (length rt.buckets) id max rt.buckets (start i) [] (omega arith) (omega arith) h
    ∙ omega (
      arith,
      sum_below_next c i,
      sum_below_mono c (i + 1) (length rt.buckets) (omega arith),
      sum_below-bucket_others id rt.buckets,
    )
