-- ===== src/BlockPool/Resolve/Confirm.antt =====
-- resolveBlock keeps the pool valid, and the confirmed chain grows by one block that follows it.
use gruut.Base.{
  ℕ, zero, suc, ◌<◌, ◌^◌, String, ◌≡◌, refl, sym, ap, subst, ◌∙◌, inl, inr, true, some, List, [],
  ◌∷◌, map, arith, eq_iff, get_elem?, any-map, All, All-map, All-get_elem?, find_index-map,
}
use gruut.BlockPool.{Block, UnresolvedBlock, Level, Pool, is_parent, same_block}
use gruut.BlockPool.Links.{
  IsValid, Linked, Chain, root_link, parent_link, AllFrom, HasHeight, Positions, Distinct,
}
use gruut.BlockPool.Contents.{bin, blocks_of}
use gruut.BlockPool.Votes.{tallied, raise, support}
use gruut.BlockPool.Resolve.{
  count_own, links_to, Resolution, confirm, resolve_block, block_id_of, relink_front, relink_root,
}
use gruut.BlockPool.Resolve.Keeps.{counted-IsValid}
use gruut.BlockPool.Resolve.Choice.{counted, resolve_block-Resolves}

-- A link of bin 0 leads to the confirmed block.
prev_id-eq :
    (id : String) (e : UnresolvedBlock)
    → e.prev_vec_idx ≡ root_link id e
    → links_to 0 e ≡ true
    → e.block.prev_id ≡ id
prev_id-eq id e h linked = ground (arith, eq_iff e.block.prev_id id)

Chain-relink_root :
    (id : String) (m : Level) (ls : List Level) → Chain m ls → Chain (map (relink_root id) m) ls
Chain-relink_root id m [] c = tt
Chain-relink_root id m (l ∷ ls) c = (links l c.0, c.1)
  where
    same : (e f : UnresolvedBlock) → is_parent e.block (relink_root id f) ≡ is_parent e.block f
    same e f = ground arith

    links :
        (k : Level)
        → All (λ e. e.prev_vec_idx ≡ parent_link m e) k
        → All (λ e. e.prev_vec_idx ≡ parent_link (map (relink_root id) m) e) k
    links [] a = tt
    links (e ∷ k) a =
        (a.0 ∙ sym (find_index-map (is_parent e.block) (relink_root id) m (same e)), links k a.1)

Linked-relink_front :
    (id : String) (above : Level) (ls : List Level)
    → Chain above ls
    → Linked id (relink_front id ls)
Linked-relink_front id above [] c = tt
Linked-relink_front id above (l ∷ ls) c = (
  All-map (λ e. e.prev_vec_idx ≡ parent_link above e) _ (relink_root id) l (λ e x. ground arith)
      c.0,
  Chain-relink_root id l ls c.1,
)

module _ (P : ℕ → Level → Type 0) (id : String)
    (keep : (h : ℕ) (l : Level) → P h l → P h (map (relink_root id) l)) where
  AllFrom-relink_front :
      (h : ℕ) (ls : List Level) → AllFrom P h ls → AllFrom P h (relink_front id ls)
  AllFrom-relink_front h [] a = tt
  AllFrom-relink_front h (l ∷ ls) a = (keep h l a.0, a.1)

Positions-relink_root :
    (id : String) (i : ℕ) (l : Level) → Positions i l → Positions i (map (relink_root id) l)
Positions-relink_root id i [] a = tt
Positions-relink_root id i (e ∷ l) a = (ground arith, Positions-relink_root id (suc i) l a.1)

relink_root-block : (id : String) (e : UnresolvedBlock) → (relink_root id e).block ≡ e.block
relink_root-block id e = ground arith

Distinct-relink_root : (id : String) (l : Level) → Distinct l → Distinct (map (relink_root id) l)
Distinct-relink_root id [] a = tt
Distinct-relink_root id (e ∷ l) a = (
  rw (relink_root-block id e) (
      any-map (λ f. same_block e.block f.block) (relink_root id) l
        (λ f. ap (same_block e.block) (relink_root-block id f))
      ∙ a.0),
  Distinct-relink_root id l a.1,
)

AllFrom-shift :
    (P : Level → Type 0) (i j : ℕ) (ls : List Level) → AllFrom (λ _. P) i ls → AllFrom (λ _. P) j ls
AllFrom-shift P i j [] a = tt
AllFrom-shift P i j (l ∷ ls) a = (a.0, AllFrom-shift P (suc i) (suc j) ls a.1)

-- A confirmed block of bin 0 is one above, and follows, the block confirmed before it.
module _ (p : Pool) (front : Level) (rest : List Level) (same : p.levels ≡ front ∷ rest)
    (v : IsValid p) (e : UnresolvedBlock) (k : ℕ) (there : get_elem? front k ≡ some e) where
  front_links : Linked p.confirmed_id (front ∷ rest)
  front_links = subst (Linked p.confirmed_id) same v.links

  front_heights : AllFrom HasHeight p.confirmed_height (front ∷ rest)
  front_heights = subst (AllFrom HasHeight p.confirmed_height) same v.heights

  confirmed_height : (e.block.height ≡ suc p.confirmed_height) × (suc p.confirmed_height < 2 ^ 31)
  confirmed_height = All-get_elem? _ front k e front_heights.0 there

  confirm-IsValid : IsValid (confirm e front rest p).pool
  unfolding confirm
  confirm-IsValid = record {
    links = Linked-relink_front e.block.block_id front rest front_links.1;
    heights =
        AllFrom-relink_front HasHeight e.block.block_id
          (λ h l.
            All-map (λ x. (x.block.height ≡ suc h) × (suc h < 2 ^ 31)) _
              (relink_root e.block.block_id) l (λ x y. ground arith))
          e.block.height rest (rw (confirmed_height.0) front_heights.1);
    positions =
        AllFrom-relink_front (λ _. Positions 0) e.block.block_id
          (λ h l. Positions-relink_root _ 0 l) 0 rest
          (AllFrom-shift (Positions 0) 1 0 rest
            (subst (AllFrom (λ _. Positions 0) 0) same v.positions).1);
    distinct =
        AllFrom-relink_front (λ _. Distinct) e.block.block_id (λ h l. Distinct-relink_root _ l) 0
          rest
          (AllFrom-shift Distinct 1 0 rest (subst (AllFrom (λ _. Distinct) 0) same v.distinct).1);
    small = let h = confirmed_height in omega arith;
  }

-- The pool is valid after `resolve_block`, whatever block calls for it and whether it confirms or not.
pub resolve_block-IsValid : (b : Block) (p : Pool) → IsValid p → IsValid (resolve_block b p).pool
resolve_block-IsValid b p v = elim (resolve_block-Resolves b p) [
  | inl near ↦ rw near v
  | inr (inl kept) ↦ rw kept (counted-IsValid p v)
  | inr (inr (e, front, next, rest, same, c, result)) ↦ rw result (
      confirm-IsValid (counted p) front (next ∷ rest) same (counted-IsValid p v) e c.position
        c.there)
]

blocks_of-raise :
    (f : ℕ → ℕ) (j : ℕ) (l : Level) → blocks_of (raise f j (map count_own l)) ≡ blocks_of l
blocks_of-raise f j [] = refl
blocks_of-raise f j (e ∷ l) = ap (λ bs. e.block ∷ bs) (blocks_of-raise f (suc j) l)

pub bin-tallied : (ls : List Level) (k : ℕ) → bin (tallied ls) k ≡ bin ls k
bin-tallied [] k = refl
bin-tallied (l ∷ ls) zero = blocks_of-raise (support ls) 0 l
bin-tallied (l ∷ ls) (suc k) = bin-tallied ls k

blocks_of-relink_root : (id : String) (l : Level) → blocks_of (map (relink_root id) l) ≡ blocks_of l
blocks_of-relink_root id [] = refl
blocks_of-relink_root id (e ∷ l) = rw (relink_root-block id e, blocks_of-relink_root id l)

bin-relink_front : (id : String) (ls : List Level) (k : ℕ) → bin (relink_front id ls) k ≡ bin ls k
bin-relink_front id [] k = refl
bin-relink_front id (l ∷ ls) zero = blocks_of-relink_root id l
bin-relink_front id (l ∷ ls) (suc k) = refl

-- The chain after block `e` is confirmed.
pub record Extends (p : Pool) (e : UnresolvedBlock) (r : Resolution) : Type 0 where
  pub follows : e.block.prev_id ≡ p.confirmed_id
  pub above : e.block.height ≡ suc p.confirmed_height
  pub id : r.pool.confirmed_id ≡ e.block.block_id
  pub hash : r.pool.confirmed_hash ≡ e.block.block_hash
  pub height : r.pool.confirmed_height ≡ e.block.height
  pub prev_id : r.pool.confirmed_prev_id ≡ p.confirmed_id
  pub dropped : r.dropped ≡ map (λ (b : Block). b.block_id) (bin p.levels 0)
  pub bins : (k : ℕ) → bin r.pool.levels k ≡ bin p.levels (suc k)

ids_of : (l : Level) → map block_id_of l ≡ map (λ (b : Block). b.block_id) (blocks_of l)
ids_of [] = refl
ids_of (e ∷ l) = ap (λ is. e.block.block_id ∷ is) (ids_of l)

confirm-Extends :
    (p : Pool) (front : Level) (rest : List Level) (e : UnresolvedBlock) (k : ℕ)
    → IsValid p
    → tallied p.levels ≡ front ∷ rest
    → get_elem? front k ≡ some e
    → links_to 0 e ≡ true
    → Extends p e (confirm e front rest (counted p))
unfolding confirm
confirm-Extends p front rest e k v same there linked = record {
  follows =
      prev_id-eq p.confirmed_id e
        (All-get_elem? _ front k e (front_links (counted p) front rest same w e k there).0 there)
        linked;
  above = (confirmed_height (counted p) front rest same w e k there).0;
  id = refl;
  hash = refl;
  height = refl;
  prev_id = refl;
  dropped = ids_of front ∙ ap (map _) (sym (ap (λ ls. bin ls 0) same) ∙ bin-tallied p.levels 0);
  bins = λ i.
      bin-relink_front e.block.block_id rest i
      ∙ sym (ap (λ ls. bin ls (suc i)) same)
      ∙ bin-tallied p.levels (suc i);
}
  where
    w : IsValid (counted p)
    w = counted-IsValid p v

-- A block that `resolve_block` confirms on a valid pool follows the block confirmed before it, one
-- higher. It becomes the confirmed one, the ids of its bin are dropped, and each other bin moves down
-- by one with the blocks that it holds.
pub resolve_block-Extends :
    (b : Block) (p : Pool) (e : UnresolvedBlock)
    → IsValid p
    → (resolve_block b p).resolved ≡ some e
    → Extends p e (resolve_block b p)
unfolding confirm
resolve_block-Extends b p e v h = elim (resolve_block-Resolves b p) [
  | inl near ↦ cc
  | inr (inl kept) ↦ cc
  | inr (inr (f, front, next, rest, same, c, result)) ↦
      let eq : some f ≡ some e = sym (ap (λ (r : Resolution). r.resolved) result) ∙ h in
      let found : f ≡ e = cc in
      subst (λ x. Extends p x (resolve_block b p)) found
        (rw result (confirm-Extends p front (next ∷ rest) f c.position v same c.there c.linked))
]
