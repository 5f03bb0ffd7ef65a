-- ===== src/BlockPool/Votes.antt =====
-- updateTotalNumSSig gives each block the signatures of its subtree: its own and those of the blocks
-- that link to it, directly or through others.
use gruut.Base.{
  ℕ, zero, suc, ◌+◌, ◌≡◌, refl, ◌≢◌, ◌≤◌, sym, ap, ◌∙◌, Option, none, some, List, [], ◌∷◌, map,
  arith, if◌then◌else◌, modify,
}
use mathlib.Core.Path.{fun_ext}
use gruut.BlockPool.{UnresolvedBlock, Level, Pool, num_signers}
use gruut.BlockPool.Resolve.{
  count_own, add_votes, credit, credit_to, is_position, credit_all, credit_first, sum_up, links_to,
  update_total_num_ssig,
}

-- The signatures in the subtrees of those blocks of a bin, from position j, that link to position k.
abbrev pub linked_votes : (ℕ → ℕ) → ℕ → ℕ → Level → ℕ
linked_votes f k j [] = 0
linked_votes f k j (e ∷ m) =
    (if links_to k e then num_signers e.block + f j else 0) + linked_votes f k (suc j) m

-- The signatures below position k of the bin before the given ones.
abbrev pub support : List Level → ℕ → ℕ
support [] k = 0
support (m ∷ ls) k = linked_votes (support ls) k 0 m

-- Each block of a bin, from position j, gains the votes of its position.
abbrev pub raise : (ℕ → ℕ) → ℕ → Level → Level
raise f j [] = []
raise f j (e ∷ l) = add_votes (f j) e ∷ raise f (suc j) l

abbrev pub tally : (ℕ → ℕ) → Level → Level
tally f l = raise f 0 (map count_own l)

abbrev pub tallied : List Level → List Level
tallied [] = []
tallied (l ∷ ls) = tally (support ls) l ∷ tallied ls

raise_none : (f : ℕ → ℕ) (j : ℕ) (l : Level) → ((i : ℕ) → j ≤ i → f i ≡ 0) → raise f j l ≡ l
raise_none f j [] h = refl
raise_none f j (e ∷ l) h =
    ground (arith, h j (omega arith), raise_none f (suc j) l (λ i k. h i (omega arith)))

-- One position that gains votes is a change at that position.
modify-eq-raise :
    (f : ℕ → ℕ) (n k j : ℕ) (l : Level)
    → ((i : ℕ) → i ≡ j + k → f i ≡ n)
    → ((i : ℕ) → i ≢ j + k → f i ≡ 0)
    → modify k (add_votes n) l ≡ raise f j l
modify-eq-raise f n k j [] h g = refl
modify-eq-raise f n zero j (e ∷ l) h g =
    ground (arith, h j (omega arith), raise_none f (suc j) l (λ i lt. g i (omega arith)))
modify-eq-raise f n (suc k) j (e ∷ l) h g = ground (
  arith,
  g j (omega arith),
  modify-eq-raise f n k (suc j) l (λ i x. h i (omega arith)) (λ i x. g i (omega arith)),
)

raise-raise :
    (f g : ℕ → ℕ) (j : ℕ) (l : Level) → raise g j (raise f j l) ≡ raise (λ i. f i + g i) j l
raise-raise f g j [] = refl
raise-raise f g j (e ∷ l) = ground (arith, raise-raise f g (suc j) l)

abbrev credit_at : UnresolvedBlock → ℕ → ℕ
credit_at e k = if links_to k e then e.ssig_sum else 0

abbrev credits : Level → ℕ → ℕ
credits [] k = 0
credits (e ∷ m) k = credit_at e k + credits m k

credit_to-eq-raise :
    (o : Option ℕ) (n : ℕ) (l : Level)
    → credit_to o n l ≡ raise (λ k. if is_position k o then n else 0) 0 l
credit_to-eq-raise none n l = sym (raise_none _ 0 l (λ i h. refl))
credit_to-eq-raise (some k) n l =
    modify-eq-raise _ n k 0 l (λ i x. ground arith) (λ i x. ground arith)

credit_all-eq-raise : (l m : Level) → credit_all l m ≡ raise (credits m) 0 l
credit_all-eq-raise l [] = sym (raise_none _ 0 l (λ i h. refl))
credit_all-eq-raise l (e ∷ m) =
    credit_all-eq-raise (credit l e) m
    ∙ ap (raise (credits m) 0) (credit_to-eq-raise e.prev_vec_idx e.ssig_sum l)
    ∙ raise-raise (credit_at e) (credits m) 0 l

credits-raise :
    (f : ℕ → ℕ) (k j : ℕ) (m : Level)
    → credits (raise f j (map count_own m)) k ≡ linked_votes f k j m
credits-raise f k j [] = refl
credits-raise f k j (e ∷ m) = ground (arith, credits-raise f k (suc j) m)

credit_first-tallied :
    (l : Level) (ls : List Level) → credit_first (map count_own l) (tallied ls) ≡ tallied (l ∷ ls)
credit_first-tallied l [] = ap (λ k. k ∷ []) (sym (raise_none _ 0 (map count_own l) (λ i h. refl)))
credit_first-tallied l (m ∷ ls) =
    ap (λ k. k ∷ tallied (m ∷ ls))
      (credit_all-eq-raise (map count_own l) (tally (support ls) m)
        ∙ ap (λ f. raise f 0 (map count_own l)) (fun_ext (λ k. credits-raise (support ls) k 0 m)))

pub sum_up-eq-tallied : (ls : List Level) → sum_up (map (map count_own) ls) ≡ tallied ls
sum_up-eq-tallied [] = refl
sum_up-eq-tallied (l ∷ ls) =
    ap (credit_first (map count_own l)) (sum_up-eq-tallied ls) ∙ credit_first-tallied l ls

-- After the update every block counts its own signers and the signatures of all blocks above it that
-- lead down to it by their links; nothing else of the pool changes.
pub update_total_num_ssig-eq-tallied :
    (p : Pool) → update_total_num_ssig p ≡ record p { levels = tallied p.levels }
unfolding update_total_num_ssig
update_total_num_ssig-eq-tallied p = rw (sum_up-eq-tallied p.levels)
