-- ===== src/BlockPool/Links.antt =====
-- What holds of the pool between two calls: each bin holds the blocks of one height, each block
-- knows its position, and each link is the one that a search for the parent would give.
use gruut.Base.{
  ℕ, zero, suc, ◌+◌, ◌<◌, ◌^◌, String, ◌≡◌, refl, false, true, Option, none, some, List, [], ◌∷◌,
  ◌++◌, map, arith, str_eq, if◌then◌else◌, length, get_or, find_index, All, All-append, All-map,
  find_index-snoc, find_index-map, any, any-append, any-map,
}
use gruut.BlockPool.{
  Block, UnresolvedBlock, Level, Pool, is_parent, new_unresolved, relink, grow, add_at, same_block,
}

abbrev pub root_link : String → UnresolvedBlock → Option ℕ
root_link id e = if str_eq e.block.prev_id id then some 0 else none

abbrev pub parent_link : Level → UnresolvedBlock → Option ℕ
parent_link above e = find_index (is_parent e.block) above

abbrev pub Chain : Level → List Level → Type 0
Chain above [] = Unit
Chain above (l ∷ ls) = All (λ e. e.prev_vec_idx ≡ parent_link above e) l × Chain l ls

abbrev pub Linked : String → List Level → Type 0
Linked id [] = Unit
Linked id (l ∷ ls) = All (λ e. e.prev_vec_idx ≡ root_link id e) l × Chain l ls

-- Bin d of a deque, counted from h, has the property at h + d.
abbrev pub AllFrom : (ℕ → Level → Type 0) → ℕ → List Level → Type 0
AllFrom P h [] = Unit
AllFrom P h (l ∷ ls) = P h l × AllFrom P (suc h) ls

abbrev pub HasHeight : ℕ → Level → Type 0
HasHeight h = All (λ (e : UnresolvedBlock). (e.block.height ≡ suc h) × (suc h < 2 ^ 31))

abbrev pub Positions : ℕ → Level → Type 0
Positions i [] = Unit
Positions i (e ∷ l) = (e.cur_vec_idx ≡ some i) × Positions (suc i) l

-- No bin holds one block twice.
abbrev pub Distinct : Level → Type 0
Distinct [] = Unit
Distinct (e ∷ l) = (any (λ f. same_block e.block f.block) l ≡ false) × Distinct l

pub record IsValid (p : Pool) : Type 0 where
  pub links : Linked p.confirmed_id p.levels
  pub heights : AllFrom HasHeight p.confirmed_height p.levels
  pub positions : AllFrom (λ _. Positions 0) 0 p.levels
  pub distinct : AllFrom (λ _. Distinct) 0 p.levels
  pub small : p.confirmed_height < 2 ^ 31

pub Chain-grow :
    (n : ℕ) (above : Level) (ls : List Level) → Chain above ls → Chain above (grow n ls)
Chain-grow zero above ls c = c
Chain-grow (suc n) above [] c = (tt, Chain-grow n [] [] tt)
Chain-grow (suc n) above (l ∷ ls) c = (c.0, Chain-grow n l ls c.1)

pub Linked-grow : (n : ℕ) (id : String) (ls : List Level) → Linked id ls → Linked id (grow n ls)
Linked-grow zero id ls c = c
Linked-grow (suc n) id [] c = (tt, Chain-grow n [] [] tt)
Linked-grow (suc n) id (l ∷ ls) c = (c.0, Chain-grow n l ls c.1)

pub AllFrom-grow :
    (P : ℕ → Level → Type 0)
    → ((h : ℕ) → P h [])
    → (n h : ℕ) (ls : List Level) → AllFrom P h ls
    → AllFrom P h (grow n ls)
AllFrom-grow P e zero h ls c = c
AllFrom-grow P e (suc n) h [] c = (e h, AllFrom-grow P e n (suc h) [] tt)
AllFrom-grow P e (suc n) h (l ∷ ls) c = (c.0, AllFrom-grow P e n (suc h) ls c.1)

-- The link of a later block after the arrival of `b` at the end of the bin above.
relink-parent :
    (b : Block) (prev : Option ℕ) (l : Level) (e : UnresolvedBlock)
    → e.prev_vec_idx ≡ parent_link l e
    → let f = relink b (length l) e in
      f.prev_vec_idx ≡ parent_link (l ++ new_unresolved b (length l) prev ∷ []) f
relink-parent b prev l e h =
    ground (arith, find_index-snoc (is_parent e.block) l (new_unresolved b (length l) prev))

relink-is_parent :
    (b c : Block) (v : ℕ) (e : UnresolvedBlock) → is_parent c (relink b v e) ≡ is_parent c e
relink-is_parent b c v e = ground arith

Chain-relink :
    (b : Block) (v : ℕ) (m : Level) (ls : List Level) → Chain m ls → Chain (map (relink b v) m) ls
Chain-relink b v m [] c = tt
Chain-relink b v m (l ∷ ls) c = (go l c.0, c.1)
  where
    go :
        (k : Level)
        → All (λ e. e.prev_vec_idx ≡ parent_link m e) k
        → All (λ e. e.prev_vec_idx ≡ parent_link (map (relink b v) m) e) k
    go [] a = tt
    go (e ∷ k) a = (
      rw (find_index-map (is_parent e.block) (relink b v) m (relink-is_parent b e.block v)) a.0,
      go k a.1,
    )

pub Chain-add_at :
    (d : ℕ) (b : Block) (prev : Option ℕ) (above : Level) (ls : List Level)
    → prev ≡ find_index (is_parent b) (get_or (above ∷ ls) d [])
    → Chain above ls
    → Chain above (add_at d b (length (get_or ls d [])) prev ls)
Chain-add_at d b prev above [] h c = tt
Chain-add_at zero b prev above (l ∷ []) h c = (All-append _ l _ c.0 (h, tt), tt)
Chain-add_at zero b prev above (l ∷ m ∷ ls) h c = (
  All-append _ l _ c.0 (h, tt),
  (
    All-map (λ e. e.prev_vec_idx ≡ parent_link l e) _ (relink b (length l)) m
        (relink-parent b prev l) c.1.0,
    Chain-relink b (length l) m ls c.1.1,
  ),
)
Chain-add_at (suc d) b prev above (l ∷ ls) h c = (c.0, Chain-add_at d b prev l ls h c.1)

pub Linked-add_at :
    (d : ℕ) (id : String) (b : Block) (prev : Option ℕ) (l : Level) (ls : List Level)
    → prev ≡ find_index (is_parent b) (get_or (l ∷ ls) d [])
    → Linked id (l ∷ ls)
    → Linked id (add_at (suc d) b (length (get_or ls d [])) prev (l ∷ ls))
Linked-add_at d id b prev l ls h c = (c.0, Chain-add_at d b prev l ls h c.1)

pub Linked-add_root :
    (id : String) (b : Block) (l : Level) (ls : List Level)
    → str_eq b.prev_id id ≡ true
    → Linked id (l ∷ ls)
    → Linked id (add_at 0 b (length l) (some 0) (l ∷ ls))
Linked-add_root id b l [] h c = (All-append _ l _ c.0 (rw h refl, tt), tt)
Linked-add_root id b l (m ∷ ls) h c = (
  All-append _ l _ c.0 (rw h refl, tt),
  (
    All-map (λ e. e.prev_vec_idx ≡ parent_link l e) _ (relink b (length l)) m
        (relink-parent b (some 0) l) c.1.0,
    Chain-relink b (length l) m ls c.1.1,
  ),
)

-- A property of bins that a new block at the end and new links keep holds after `add_at`.
module _ (P : ℕ → Level → Type 0) (b : Block) (prev : Option ℕ)
    (keep : (h v : ℕ) (m : Level) → P h m → P h (map (relink b v) m)) where
  abbrev appended : Level → Level
  appended l = l ++ new_unresolved b (length l) prev ∷ []

  pub AllFrom-add_at :
      (d h : ℕ) (ls : List Level)
      → ((k : ℕ) → k ≡ h + d → P k (get_or ls d []) → P k (appended (get_or ls d [])))
      → AllFrom P h ls
      → AllFrom P h (add_at d b (length (get_or ls d [])) prev ls)
  AllFrom-add_at d h [] new a = tt
  AllFrom-add_at zero h (l ∷ []) new a = (new h (omega arith) a.0, tt)
  AllFrom-add_at zero h (l ∷ m ∷ ls) new a =
      (new h (omega arith) a.0, (keep (suc h) (length l) m a.1.0, a.1.1))
  AllFrom-add_at (suc d) h (l ∷ ls) new a =
      (a.0, AllFrom-add_at d (suc h) ls (λ k e. new k (omega arith)) a.1)

pub HasHeight-relink :
    (b : Block) (h v : ℕ) (m : Level) → HasHeight h m → HasHeight h (map (relink b v) m)
HasHeight-relink b h v m =
    All-map (λ (e : UnresolvedBlock). (e.block.height ≡ suc h) × (suc h < 2 ^ 31)) _ (relink b v) m
      (λ e x. ground arith)

pub Positions-relink :
    (b : Block) (i v : ℕ) (m : Level) → Positions i m → Positions i (map (relink b v) m)
Positions-relink b i v [] a = tt
Positions-relink b i v (e ∷ m) a = (ground arith, Positions-relink b (suc i) v m a.1)

pub Positions-append :
    (b : Block) (prev : Option ℕ) (i v : ℕ) (m : Level)
    → v ≡ i + length m
    → Positions i m
    → Positions i (m ++ new_unresolved b v prev ∷ [])
Positions-append b prev i v [] e a = (let e' : v ≡ i = omega arith in rw e' refl, tt)
Positions-append b prev i v (x ∷ m) e a =
    (a.0, Positions-append b prev (suc i) v m (omega arith) a.1)

relink-block : (b : Block) (v : ℕ) (e : UnresolvedBlock) → (relink b v e).block ≡ e.block
relink-block b v e = ground arith

same_block-relink :
    (b c : Block) (v : ℕ) (e : UnresolvedBlock)
    → same_block c (relink b v e).block ≡ same_block c e.block
same_block-relink b c v e = ground arith

pub Distinct-relink : (b : Block) (v : ℕ) (m : Level) → Distinct m → Distinct (map (relink b v) m)
Distinct-relink b v [] a = tt
Distinct-relink b v (e ∷ m) a = (
  rw
      (
        relink-block b v e,
        any-map (λ f. same_block e.block f.block) (relink b v) m (same_block-relink b e.block v),
      )
      a.0,
  Distinct-relink b v m a.1,
)

pub Distinct-append :
    (e : UnresolvedBlock) (m : Level)
    → any (λ f. same_block f.block e.block) m ≡ false
    → Distinct m
    → Distinct (m ++ e ∷ [])
Distinct-append e [] h a = (refl, tt)
Distinct-append e (x ∷ m) h a = (
  ground (arith, any-append (λ f. same_block x.block f.block) m (e ∷ [])),
  Distinct-append e m (ground arith) a.1,
)
