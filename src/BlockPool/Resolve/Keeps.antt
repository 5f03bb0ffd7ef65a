-- ===== src/BlockPool/Resolve/Keeps.antt =====
-- Counting signatures and confirming a block keep the pool valid, and the bins move down by one.
use gruut.Base.{
  ℕ, suc, ◌<◌, ◌^◌, String, ◌≡◌, refl, sym, ◌∙◌, Bool, List, [], ◌∷◌, map, find_index, any, All,
  All-map, find_index-map,
}
use gruut.BlockPool.{UnresolvedBlock, Level, Pool, is_parent, same_block}
use gruut.BlockPool.Links.{
  IsValid, Linked, Chain, root_link, parent_link, AllFrom, HasHeight, Positions, Distinct,
}
use gruut.BlockPool.Votes.{tallied, tally, raise, support}
use gruut.BlockPool.Resolve.{count_own, add_votes}
use gruut.BlockPool.Resolve.Choice.{counted}

-- A search that does not look at the counts.
find_index-raise :
    (p : UnresolvedBlock → Bool) (f : ℕ → ℕ) (j : ℕ) (l : Level)
    → ((n : ℕ) (e : UnresolvedBlock) → p (add_votes n e) ≡ p e)
    → find_index p (raise f j l) ≡ find_index p l
find_index-raise p f j [] h = refl
find_index-raise p f j (e ∷ l) h = rw (h (f j) e, find_index-raise p f (suc j) l h)

parent_link-tally :
    (f : ℕ → ℕ) (l : Level) (e : UnresolvedBlock) → parent_link (tally f l) e ≡ parent_link l e
parent_link-tally f l e =
    find_index-raise (is_parent e.block) f 0 (map count_own l) (λ n x. refl)
    ∙ find_index-map (is_parent e.block) count_own l (λ x. refl)

module _ {κ} (P : UnresolvedBlock → Type κ)
    (keep : (n : ℕ) (e : UnresolvedBlock) → P e → P (record e { ssig_sum = n })) where
  All-raise : (f : ℕ → ℕ) (j : ℕ) (l : Level) → All P l → All P (raise f j l)
  All-raise f j [] a = tt
  All-raise f j (e ∷ l) a = (keep _ e a.0, All-raise f (suc j) l a.1)

  All-tally : (f : ℕ → ℕ) (l : Level) → All P l → All P (tally f l)
  All-tally f l a = All-raise f 0 (map count_own l) (All-map P P count_own l (λ e x. keep _ e x) a)

Chain-tallied :
    (f : ℕ → ℕ) (above : Level) (ls : List Level)
    → Chain above ls
    → Chain (tally f above) (tallied ls)
Chain-tallied f above [] c = tt
Chain-tallied f above (l ∷ ls) c = (
  All-tally (λ e. e.prev_vec_idx ≡ parent_link (tally f above) e) (λ n e x. x) (support ls) l
      (links l c.0),
  Chain-tallied (support ls) l ls c.1,
)
  where
    links :
        (m : Level)
        → All (λ e. e.prev_vec_idx ≡ parent_link above e) m
        → All (λ e. e.prev_vec_idx ≡ parent_link (tally f above) e) m
    links [] a = tt
    links (e ∷ m) a = (a.0 ∙ sym (parent_link-tally f above e), links m a.1)

Linked-tallied : (id : String) (ls : List Level) → Linked id ls → Linked id (tallied ls)
Linked-tallied id [] c = tt
Linked-tallied id (l ∷ ls) c = (
  All-tally (λ e. e.prev_vec_idx ≡ root_link id e) (λ n e x. x) (support ls) l c.0,
  Chain-tallied (support ls) l ls c.1,
)

module _ (P : ℕ → Level → Type 0)
    (keep : (h : ℕ) (f : ℕ → ℕ) (l : Level) → P h l → P h (tally f l)) where
  AllFrom-tallied : (h : ℕ) (ls : List Level) → AllFrom P h ls → AllFrom P h (tallied ls)
  AllFrom-tallied h [] a = tt
  AllFrom-tallied h (l ∷ ls) a = (keep h (support ls) l a.0, AllFrom-tallied (suc h) ls a.1)

Positions-raise :
    (i j : ℕ) (f : ℕ → ℕ) (l : Level) → Positions i l → Positions i (raise f j (map count_own l))
Positions-raise i j f [] a = tt
Positions-raise i j f (e ∷ l) a = (a.0, Positions-raise (suc i) (suc j) f l a.1)

any-raise :
    (p : UnresolvedBlock → Bool) (f : ℕ → ℕ) (j : ℕ) (l : Level)
    → ((n : ℕ) (e : UnresolvedBlock) → p (record e { ssig_sum = n }) ≡ p e)
    → any p (raise f j (map count_own l)) ≡ any p l
any-raise p f j [] h = refl
any-raise p f j (e ∷ l) h = rw (h _ e, any-raise p f (suc j) l h)

Distinct-raise :
    (j : ℕ) (f : ℕ → ℕ) (l : Level) → Distinct l → Distinct (raise f j (map count_own l))
Distinct-raise j f [] a = tt
Distinct-raise j f (e ∷ l) a = (
  any-raise (λ x. same_block e.block x.block) f (suc j) l (λ n x. refl) ∙ a.0,
  Distinct-raise (suc j) f l a.1,
)

pub counted-IsValid : (p : Pool) → IsValid p → IsValid (counted p)
counted-IsValid p v = record {
  links = Linked-tallied p.confirmed_id p.levels v.links;
  heights =
      AllFrom-tallied HasHeight
        (λ h. All-tally (λ e. (e.block.height ≡ suc h) × (suc h < 2 ^ 31)) (λ n e x. x))
        p.confirmed_height p.levels v.heights;
  positions =
      AllFrom-tallied (λ _. Positions 0) (λ h f l. Positions-raise 0 0 f l) 0 p.levels v.positions;
  distinct = AllFrom-tallied (λ _. Distinct) (λ h f l. Distinct-raise 0 f l) 0 p.levels v.distinct;
  small = v.small;
}
