-- ===== src/BlockPool/Contents.antt =====
-- The blocks that the bins hold, in their order, whatever the links and the counts are: what
-- pushBlock does to them.
use gruut.Base.{
  ℕ, zero, suc, ◌+◌, ◌<◌, ◌^◌, ◌≡◌, refl, sym, ap, ◌∙◌, ◌⊎◌, inl, inr, Option, none, some, List, [],
  ◌∷◌, ◌++◌, map, arith, ◌==◌, str_eq, if◌then◌else◌, length, get_or, any, Bool-cases,
}
use mathlib.Core.List.{map-append}
use gruut.Base.Int.{pos}
use gruut.BlockPool.{
  Block, UnresolvedBlock, Level, Pool, PushResult, not_added, duplicate, relink, grow, add_at,
  same_block, push_block, place_block, link_block, add_block,
}
use gruut.BlockPool.Push.{grown, push_block_cases}

abbrev pub blocks_of : Level → List Block
blocks_of = map (λ (e : UnresolvedBlock). e.block)

-- The blocks of bin d.
abbrev pub bin : List Level → ℕ → List Block
bin ls d = blocks_of (get_or ls d [])

pub bin-grow : (n : ℕ) (ls : List Level) (d : ℕ) → bin (grow n ls) d ≡ bin ls d
bin-grow zero ls d = refl
bin-grow (suc n) [] zero = refl
bin-grow (suc n) [] (suc d) = bin-grow n [] d
bin-grow (suc n) (l ∷ ls) zero = refl
bin-grow (suc n) (l ∷ ls) (suc d) = bin-grow n ls d

length-grow : (n : ℕ) (ls : List Level) (d : ℕ) → d < n → d < length (grow n ls)
length-grow zero ls d h = elim h [ ]
length-grow (suc n) [] zero h = omega arith
length-grow (suc n) [] (suc d) h = omega (arith, length-grow n [] d)
length-grow (suc n) (l ∷ ls) zero h = omega arith
length-grow (suc n) (l ∷ ls) (suc d) h = omega (arith, length-grow n ls d)

blocks_of-relink : (b : Block) (v : ℕ) (l : Level) → blocks_of (map (relink b v) l) ≡ blocks_of l
blocks_of-relink b v [] = refl
blocks_of-relink b v (e ∷ l) = ground (arith, blocks_of-relink b v l)

blocks_of-append : (l m : Level) → blocks_of (l ++ m) ≡ blocks_of l ++ blocks_of m
blocks_of-append l m = map-append _ l m

pub bin-add_at :
    (d : ℕ) (b : Block) (v : ℕ) (prev : Option ℕ) (ls : List Level) (k : ℕ)
    → d < length ls
    → bin (add_at d b v prev ls) k ≡ (if k == d then bin ls d ++ b ∷ [] else bin ls k)
bin-add_at d b v prev [] k h = elim h [ ]
bin-add_at zero b v prev (l ∷ []) zero h = blocks_of-append l _
bin-add_at zero b v prev (l ∷ []) (suc k) h = ground arith
bin-add_at zero b v prev (l ∷ m ∷ ls) zero h = blocks_of-append l _
bin-add_at zero b v prev (l ∷ m ∷ ls) (suc zero) h = ground (arith, blocks_of-relink b v m)
bin-add_at zero b v prev (l ∷ m ∷ ls) (suc (suc k)) h = ground arith
bin-add_at (suc d) b v prev (l ∷ ls) zero h = ground arith
bin-add_at (suc d) b v prev (l ∷ ls) (suc k) h =
    bin-add_at d b v prev ls k (omega arith) ∙ (ground arith)

length-blocks_of : (l : Level) → length (blocks_of l) ≡ length l
length-blocks_of [] = refl
length-blocks_of (e ∷ l) = ap suc (length-blocks_of l)

-- The pool holds the same blocks, at the same places.
abbrev pub SameBlocks : Pool → Pool → Type 0
SameBlocks p q = (k : ℕ) → bin q.levels k ≡ bin p.levels k

-- `b` stands at the end of bin d, at the position that the result names, and all else is as before.
abbrev pub Added : Block → Pool → PushResult × Pool → Type 0
Added b p r =
    (d : ℕ) × (b.height ≡ p.confirmed_height + suc d)
    × (r.0.deq_idx ≡ some d)
    × (r.0.vec_idx ≡ some (length (bin p.levels d)))
    × ((k : ℕ) → bin r.1.levels k ≡ (if k == d then bin p.levels d ++ b ∷ [] else bin p.levels k))

abbrev pub Outcome : Block → Pool → PushResult × Pool → Type 0
Outcome b p r = ((r.0.vec_idx ≡ none) × SameBlocks p r.1) ⊎ Added b p r

add_block-Added :
    (d : ℕ) (b : Block) (prev : Option ℕ) (p : Pool)
    → b.height ≡ p.confirmed_height + suc d
    → Added b p (add_block d b prev (grown d p))
unfolding add_block
add_block-Added d b prev p h = (
  d,
  h,
  refl,
  ap some (
      sym (length-blocks_of (get_or (grow (suc d) p.levels) d []))
      ∙ ap length (bin-grow (suc d) p.levels d)),
  λ k.
      bin-add_at d b _ prev (grow (suc d) p.levels) k (length-grow (suc d) p.levels d (omega arith))
      ∙ ground (arith, bin-grow (suc d) p.levels k, bin-grow (suc d) p.levels d),
)

link_block-Outcome :
    (d : ℕ) (b : Block) (p : Pool)
    → b.height ≡ p.confirmed_height + suc d
    → Outcome b p (link_block d b (grown d p))
unfolding link_block
link_block-Outcome zero b p h = elim (Bool-cases (str_eq b.prev_id p.confirmed_id)) [
  | inl e ↦ rw e (inr (add_block-Added 0 b (some 0) p h))
  | inr e ↦ rw e (inl (refl, bin-grow 1 p.levels))
]
link_block-Outcome (suc d) b p h = inr (add_block-Added (suc d) b _ p h)

place_block-Outcome :
    (d : ℕ) (b : Block) (p : Pool)
    → b.height ≡ p.confirmed_height + suc d
    → (r : PushResult × Pool) × (place_block (pos d) b (grown d p) ≡ some r) × Outcome b p r
unfolding place_block
place_block-Outcome d b p h =
    elim (Bool-cases (any (λ e. same_block e.block b) (get_or (grow (suc d) p.levels) d []))) [
      | inl e ↦ ((duplicate b, grown d p), rw e refl, inl (refl, bin-grow (suc d) p.levels))
      | inr e ↦ (link_block d b (grown d p), rw e refl, link_block-Outcome d b p h)
    ]

-- For a block below height 2 ^ 31, `push_block` returns, and either it sets no position and every
-- bin holds what it held, or the block is appended to the bin of its height, the result names that
-- bin and the position, and no other block is lost, added or moved.
pub push_block-Outcome :
    (now : ℕ) (b : Block) (p : Pool)
    → b.height < 2 ^ 31
    → p.confirmed_height < 2 ^ 31
    → (r : PushResult × Pool) × (push_block now b p ≡ some r) × Outcome b p r
push_block-Outcome now b p h k = elim (push_block_cases now b p h) [
  | inl (_, e) ↦ ((not_added, p), e, inl (refl, λ k. refl))
  | inr (_, (d, height, e)) ↦ let (r, f, o) = place_block-Outcome d b p height in (r, e ∙ f, o)
]
