-- ===== src/BlockPool/Resolve/Live.antt =====
-- resolveBlock does confirm: the first of the children of the confirmed block with the most signatures.
use gruut.Base.{
  ℕ, zero, suc, ◌+◌, ◌≤◌, ◌<◌, ◌≡◌, refl, ap, ◌∙◌, inl, inr, true, false, ◌&&◌, some, List, [], ◌∷◌,
  arith, ltb, get_elem?, take, All, Bool-cases,
}
use gruut.Base.Int.{sub64}
use gruut.BlockPool.{Block, UnresolvedBlock, Level, Pool, confirm_level, min_signatures}
use gruut.BlockPool.Votes.{tallied, update_total_num_ssig-eq-tallied}
use gruut.BlockPool.Resolve.{
  Best, no_best, find_best, links_to, confirm, choose, resolve_front, resolve_block,
}
use gruut.BlockPool.Resolve.Choice.{IsChoice, counted}

find_best-keeps :
    (i : ℕ) (l : Level) (best : Best)
    → All (λ f. links_to 0 f ≡ true → f.ssig_sum ≤ best.highest) l
    → find_best i l best ≡ best
unfolding find_best
find_best-keeps i [] best a = refl
find_best-keeps i (f ∷ l) best a = elim (Bool-cases (links_to 0 f && ltb best.highest f.ssig_sum)) [
  | inl h ↦ let low : f.ssig_sum ≤ best.highest = a.0 (ground arith) in ground arith
  | inr h ↦ rw h (find_best-keeps (suc i) l best a.1)
]

module _ (e : UnresolvedBlock) (linked : links_to 0 e ≡ true) where
  abbrev chosen : ℕ → Best
  chosen j = record { index = some j; highest = e.ssig_sum }

  find_best-first :
      (i k : ℕ) (l : Level) (start : Best)
      → get_elem? l k ≡ some e
      → All (λ f. links_to 0 f ≡ true → f.ssig_sum ≤ e.ssig_sum) l
      → All (λ f. links_to 0 f ≡ true → f.ssig_sum < e.ssig_sum) (take k l)
      → start.highest < e.ssig_sum
      → find_best i l start ≡ chosen (i + k)
  unfolding find_best
  find_best-first i k [] start there most first low = cc
  find_best-first i zero (f ∷ l) start there most first low =
      let same : f ≡ e = cc in
      let h : (links_to 0 f && ltb start.highest f.ssig_sum) ≡ true = rw same (ground arith) in
      rw h (rw same (find_best-keeps (suc i) l (chosen i) most.1 ∙ ap chosen (omega arith)))
  find_best-first i (suc k) (f ∷ l) start there most first low =
      elim (Bool-cases (links_to 0 f && ltb start.highest f.ssig_sum)) [
        | inl h ↦ rw h (
            find_best-first (suc i) k l _ there most.1 first.1 (first.0 (ground arith))
            ∙ ap chosen (omega arith))
        | inr h ↦
            rw h
              (find_best-first (suc i) k l start there most.1 first.1 low ∙ ap chosen (omega arith))
      ]

module _ (front next : Level) (rest : List Level) (p : Pool) (e : UnresolvedBlock)
    (c : IsChoice front next e)
    (first : All (λ f. links_to 0 f ≡ true → f.ssig_sum < e.ssig_sum) (take c.position front)) where
  choose-confirm :
      choose (find_best 0 front no_best) front next rest p ≡ confirm e front (next ∷ rest) p
  unfolding choose
  choose-confirm =
      let best : find_best 0 front no_best ≡ chosen e c.linked c.position =
        find_best-first e c.linked 0 c.position front no_best c.there c.most first
          (let h = c.signed in omega arith)
        ∙ ap (chosen e c.linked) (omega arith) in
      let enough : ltb e.ssig_sum min_signatures ≡ false = let h = c.signed in ground arith in
      rw (best, enough, c.followed, c.there) refl

resolve_front-confirm :
    (front next : Level) (rest : List Level) (p : Pool) (e : UnresolvedBlock)
    (c : IsChoice front next e)
    → All (λ f. links_to 0 f ≡ true → f.ssig_sum < e.ssig_sum) (take c.position front)
    → resolve_front (front ∷ next ∷ rest) p ≡ confirm e front (next ∷ rest) p
unfolding resolve_front
resolve_front-confirm [] next rest p e c first = let h = c.there in cc
resolve_front-confirm (f ∷ l) [] rest p e c first = let h = c.followed in cc
resolve_front-confirm (f ∷ l) (g ∷ m) rest p e c first =
    choose-confirm (f ∷ l) (g ∷ m) rest p e c first

-- If the new block is more than the confirm level above the confirmed one, `resolve_block` does
-- confirm a block of bin 0 that is a choice once the signatures are counted (it links to the confirmed
-- block, some block of bin 1 follows it, and its subtree has a signature and at least as many as that
-- of any other linked block), where each linked block before it in the bin has fewer.
pub resolve_block-confirm :
    (b : Block) (p : Pool) (front next : Level) (rest : List Level) (e : UnresolvedBlock)
    (c : IsChoice front next e)
    → confirm_level < sub64 b.height p.confirmed_height
    → tallied p.levels ≡ front ∷ next ∷ rest
    → All (λ f. links_to 0 f ≡ true → f.ssig_sum < e.ssig_sum) (take c.position front)
    → resolve_block b p ≡ confirm e front (next ∷ rest) (counted p)
unfolding resolve_block
resolve_block-confirm b p front next rest e c far levels first =
    let test : ltb confirm_level (sub64 b.height p.confirmed_height) ≡ true = ground arith in
    rw test (
      rw update_total_num_ssig-eq-tallied (
        ap (λ ls. resolve_front ls (counted p)) levels
        ∙ resolve_front-confirm front next rest (counted p) e c first))
