-- ===== src/Kademlia/KBucket/Valid.antt =====
-- What every operation of a bucket keeps: the nodes fit the prefix, and are at most `ksize`.
use gruut.Base.{
  ℕ, zero, suc, ◌+◌, ◌-◌, ◌≤◌, ◌<◌, ◌≡◌, subst, inl, inr, Bool, true, not, some, List, [], ◌∷◌,
  ◌++◌, arith, All, All-append, length, length-append, find_index, find_index-lt-length, Bool-cases,
  Option-cases,
}
use gruut.Kademlia.Hash.{Hash160, keysize_bits, to_bit_set}
use gruut.Kademlia.Node.{Node, open_channel, node_eq, same_id}
use gruut.Kademlia.KBucket.{
  KBucket, full, erase_at, add_node, add_new, last?, drop_last, promote, remove_at,
  remove_replacement, remove_node, can_hold_node, half, held_by, split,
}
use gruut.Kademlia.KBucket.Halves.{halves_cover}

pub record IsValid (b : KBucket) : Type 0 where
  pub held : All (λ (n : Node). can_hold_node b n.id_hash ≡ true) b.nodes
  pub waiting : All (λ (n : Node). can_hold_node b n.id_hash ≡ true) b.replacement_nodes
  pub room : length b.nodes ≤ b.ksize
  pub levels : b.depth ≡ b.prefix_size

module _ {κ} (P : Node → Type κ) where
  All-erase_at : (i : ℕ) (ns : List Node) → All P ns → All P (erase_at i ns)
  All-erase_at i [] a = tt
  All-erase_at zero (n ∷ ns) a = a.1
  All-erase_at (suc i) (n ∷ ns) a = (a.0, All-erase_at i ns a.1)

  All-drop_last : (ns : List Node) → All P ns → All P (drop_last ns)
  All-drop_last [] a = tt
  All-drop_last (n ∷ []) a = tt
  All-drop_last (n ∷ m ∷ ns) a = (a.0, All-drop_last (m ∷ ns) a.1)

  All-last? : (ns : List Node) (n : Node) → All P ns → last? ns ≡ some n → P n
  All-last? [] n a e = cc
  All-last? (m ∷ []) n a e = let same : m ≡ n = cc in subst P same a.0
  All-last? (m ∷ k ∷ ns) n a e = All-last? (k ∷ ns) n a.1 e

  All-held_by : (p : Node → Bool) (ns : List Node) → All P ns → All P (held_by p ns)
  All-held_by p [] a = tt
  All-held_by p (n ∷ ns) a = ground (arith, All-held_by p ns a.1)

length-erase_at : (i : ℕ) (ns : List Node) → i < length ns → length (erase_at i ns) + 1 ≡ length ns
length-erase_at i [] h = elim h [ ]
length-erase_at zero (n ∷ ns) h = omega arith
length-erase_at (suc i) (n ∷ ns) h = omega (arith, length-erase_at i ns (omega arith))

id_hash-open_channel : (n : Node) → (open_channel n).id_hash ≡ n.id_hash
id_hash-open_channel n = ground arith

length-held_by : (p : Node → Bool) (ns : List Node) → length (held_by p ns) ≤ length ns
length-held_by p [] = omega arith
length-held_by p (n ∷ ns) = ground (arith, length-held_by p ns)

module _ (b : KBucket) where
  abbrev Fits : Node → Type 0
  Fits n = can_hold_node b n.id_hash ≡ true

  Fits-open_channel : (n : Node) → Fits n → Fits (open_channel n)
  Fits-open_channel n h = rw (id_hash-open_channel n) h

  -- The nodes with one more at the end.
  push_back-IsValid :
      (ns : List Node) (n : Node)
      → IsValid b
      → All Fits ns
      → length ns < b.ksize
      → Fits n
      → IsValid (record b { nodes = ns ++ open_channel n ∷ [] })
  push_back-IsValid ns n v a room h = record {
    held = All-append Fits ns (open_channel n ∷ []) a (Fits-open_channel n h, tt);
    waiting = v.waiting;
    room = omega (arith, length-append ns (open_channel n ∷ []));
    levels = v.levels;
  }

pub add_node-IsValid :
    (node : Node) (b : KBucket)
    → IsValid b
    → can_hold_node b node.id_hash ≡ true
    → IsValid (add_node node b).1
unfolding add_node add_new
add_node-IsValid node b v h = elim (Option-cases (find_index (λ n. node_eq n node) b.nodes)) [
  | inr (i, e) ↦
      let lt = length-erase_at i b.nodes (find_index-lt-length _ b.nodes i e) in
      rw (add_node, e)
        (push_back-IsValid b (erase_at i b.nodes) node v (All-erase_at (Fits b) i b.nodes v.held)
          (omega (arith, v.room)) h)
  | inl e ↦ elim (Bool-cases (full b)) [
    | inl no_room ↦
        rw (add_node, e, add_new, no_room)
          (record {
            held = v.held;
            waiting = All-append (Fits b) b.replacement_nodes (node ∷ []) v.waiting (h, tt);
            room = v.room;
            levels = v.levels;
          })
    | inr free ↦
        rw (add_node, e, add_new, free)
          (push_back-IsValid b b.nodes node v v.held (ground (arith, v.room)) h)
  ]
]

promote-IsValid : (b : KBucket) → IsValid b → length b.nodes < b.ksize → IsValid (promote b)
promote-IsValid b v free = elim (Option-cases (last? b.replacement_nodes)) [
  | inl e ↦ rw (promote, e) v
  | inr (n, e) ↦
      let pushed =
        push_back-IsValid b b.nodes n v v.held free
          (All-last? (Fits b) b.replacement_nodes n v.waiting e) in
      rw (promote, e)
        (record {
          held = pushed.held;
          waiting = All-drop_last (Fits b) b.replacement_nodes v.waiting;
          room = pushed.room;
          levels = v.levels;
        })
]

pub remove_at-IsValid :
    (i : ℕ) (b : KBucket) → i < length b.nodes → IsValid b → IsValid (remove_at i b)
unfolding remove_at
remove_at-IsValid i b h v =
    let lt = length-erase_at i b.nodes h in
    promote-IsValid (record b { nodes = erase_at i b.nodes })
      (record {
        held = All-erase_at (Fits b) i b.nodes v.held;
        waiting = v.waiting;
        room = omega (arith, v.room);
        levels = v.levels;
      })
      (omega (arith, v.room))

remove_replacement-IsValid :
    (id : Hash160) (b : KBucket) → IsValid b → IsValid (remove_replacement id b)
remove_replacement-IsValid id b v =
    elim (Option-cases (find_index (λ n. same_id n id) b.replacement_nodes)) [
      | inl e ↦ rw (remove_replacement, e) v
      | inr (i, e) ↦
          rw (remove_replacement, e)
            (record {
              held = v.held;
              waiting = All-erase_at (Fits b) i b.replacement_nodes v.waiting;
              room = v.room;
              levels = v.levels;
            })
    ]

pub remove_node-IsValid : (id : Hash160) (b : KBucket) → IsValid b → IsValid (remove_node id b)
unfolding remove_node
remove_node-IsValid id b v = elim (Option-cases (find_index (λ n. same_id n id) b.nodes)) [
  | inl e ↦ rw (remove_node, e) (remove_replacement-IsValid id b v)
  | inr (i, e) ↦ rw (remove_node, e) (remove_at-IsValid i b (find_index-lt-length _ b.nodes i e) v)
]

-- The nodes that one half can hold.
All-first :
    (h : KBucket) (ns : List Node)
    → All (λ n. can_hold_node h n.id_hash ≡ true) (held_by (λ n. can_hold_node h n.id_hash) ns)
All-first h [] = tt
All-first h (n ∷ ns) = elim (Bool-cases (can_hold_node h n.id_hash)) [
  | inl e ↦ rw (held_by, e) (e, All-first h ns)
  | inr e ↦ rw (held_by, e) (All-first h ns)
]

-- What a bucket can hold and one half cannot, the other can.
All-second :
    (b : KBucket) (v : Bool) (ns : List Node)
    → b.prefix_size < keysize_bits
    → All (λ n. can_hold_node b n.id_hash ≡ true) ns
    → All
        (λ n. can_hold_node (half b v) n.id_hash ≡ true)
        (held_by (λ n. not (can_hold_node (half b (not v)) n.id_hash)) ns)
All-second b v [] h a = tt
All-second b v (n ∷ ns) h a = elim (Bool-cases (can_hold_node (half b (not v)) n.id_hash)) [
  | inl e ↦ rw (held_by, e) (All-second b v ns h a.1)
  | inr e ↦
      rw (held_by, e)
        (ground (arith, a.0, halves_cover b v (to_bit_set n.id_hash) h), All-second b v ns h a.1)
]

pub split-IsValid :
    (b : KBucket)
    → b.prefix_size < keysize_bits
    → IsValid b
    → IsValid (split b).0 × IsValid (split b).1
unfolding split half
split-IsValid b h v = (
  record {
    held = All-first one b.nodes;
    waiting = All-first one b.replacement_nodes;
    room = omega (arith, v.room, length-held_by (λ n. can_hold_node one n.id_hash) b.nodes);
    levels = omega (arith, v.levels);
  },
  record {
    held = All-second b mine b.nodes h v.held;
    waiting = All-second b mine b.replacement_nodes h v.waiting;
    room = omega (arith, v.room, length-held_by (λ n. not (can_hold_node one n.id_hash)) b.nodes);
    levels = omega (arith, v.levels);
  },
)
  where
    mine : Bool
    mine = to_bit_set b.my_node.id_hash (keysize_bits - 1 - b.prefix_size)

    one : KBucket
    one = half b (not mine)
