-- ===== src/Kademlia/Routing/Neighbors.antt =====
-- findNeighbors of src/plugins/net_plugin/kademlia/routing.cpp: the buckets from that of the id on,
-- to the left and to the right in turn, up to a number of nodes.
pub mod Count
use gruut.Base.{
  ℕ, zero, suc, ◌+◌, ◌-◌, ◌≤◌, ◌<◌, ◌≡◌, refl, sym, ap, subst, ◌∙◌, ◌⊎◌, inl, inr, Bool, true,
  false, not, ◌&&◌, ◌||◌, Option, none, some, List, [], ◌∷◌, ◌++◌, arith, ◌==◌, if◌then◌else◌, All,
  All-append, length, length-append, get_elem?, Bool-cases, Option-cases,
}
use gruut.Kademlia.Hash.{Hash160, to_bit_set}
use gruut.Kademlia.Node.{Node, same_id}
use gruut.Kademlia.KBucket.{KBucket}
use gruut.Kademlia.Routing.{RoutingTable, get_bucket_index_for}

-- The inner loop: the nodes of a bucket but the one asked for. The flag says that the number is met.
pub collect : Hash160 → ℕ → List Node → List Node → Bool × List Node
collect id max acc [] = (false, acc)
collect id max acc (n ∷ ns) =
    let on = collect id max (acc ++ n ∷ []) ns in
    let skip = collect id max acc ns in
    if same_id n id
    then skip
    else (if length (acc ++ n ∷ []) == max then (true, acc ++ n ∷ []) else on)

-- The iterators, as positions: `right` is the next bucket to the right, and `left` the last one
-- visited to the left.
pub record Walk : Type 0 where
  pub left : ℕ
  pub right : ℕ
  pub current : ℕ
  pub use_left : Bool

pub nodes_at : List KBucket → ℕ → List Node
nodes_at bs i = elim (get_elem? bs i) [ none ↦ [] | some b ↦ b.nodes ]

-- The next bucket, if there is one more.
pub next : ℕ → Walk → Option Walk
next count w =
    if not (w.left == 0) && (w.use_left || w.right == count)
    then some (record w { left = w.left - 1; current = w.left - 1; use_left = false })
    else if not (w.right == count)
    then some (record w { current = w.right; right = w.right + 1; use_left = true })
    else none

-- The outer loop on fuel.
pub visit : ℕ → Hash160 → ℕ → List KBucket → Walk → List Node → List Node
visit zero id max bs w acc = acc
visit (suc f) id max bs w acc =
    let (done, acc') = collect id max acc (nodes_at bs w.current) in
    if done
    then acc'
    else elim (next (length bs) w) [ none ↦ acc' | some w' ↦ visit f id max bs w' acc' ]

abbrev pub start : ℕ → Walk
start i = record { left = i; right = i + 1; current = i; use_left = true }

-- One round for each bucket.
unfoldable pub find_neighbors : Hash160 → ℕ → RoutingTable → List Node
unfolding visit collect next nodes_at
find_neighbors id max rt =
    visit (length rt.buckets) id max rt.buckets (start (get_bucket_index_for id rt)) []
