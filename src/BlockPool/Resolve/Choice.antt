-- ===== src/BlockPool/Resolve/Choice.antt =====
-- resolveBlock confirms the child of the confirmed block with the most signatures in its subtree.
use gruut.Base.{
  ℕ, suc, ◌+◌, ◌≤◌, ◌<◌, ◌≡◌, refl, sym, ap, subst, ◌∙◌, ◌⊎◌, inl, inr, true, ◌&&◌, some, List, [],
  ◌∷◌, arith, ltb, get_elem?, any, All, Bool-cases,
}
use gruut.Base.Int.{sub64}
use gruut.BlockPool.{Block, UnresolvedBlock, Level, Pool, confirm_level, min_signatures}
use gruut.BlockPool.Votes.{tallied, update_total_num_ssig-eq-tallied}
use gruut.BlockPool.Resolve.{
  Best, no_best, find_best, links_to, Resolution, unresolved, confirm, choose, resolve_front,
  resolve_block,
}

-- The block that the loop over a bin from position i has chosen.
abbrev Chosen : ℕ → Level → Best → Type 0
Chosen i l best =
    (k : ℕ) × (e : UnresolvedBlock) × (best.index ≡ some (i + k))
    × (get_elem? l k ≡ some e)
    × (links_to 0 e ≡ true)
    × (e.ssig_sum ≡ best.highest)

-- The result of that loop, started at `start`.
record IsBest (i : ℕ) (l : Level) (start best : Best) : Type 0 where
  above : All (λ e. links_to 0 e ≡ true → e.ssig_sum ≤ best.highest) l
  at_least : start.highest ≤ best.highest
  source : (best ≡ start) ⊎ Chosen i l best

Chosen-later :
    (i : ℕ) (x : UnresolvedBlock) (l : Level) (best : Best)
    → Chosen (suc i) l best
    → Chosen i (x ∷ l) best
Chosen-later i x l best (k, e, at, rest, linked, votes) =
    (suc k, e, at ∙ ap some (omega arith), rest, linked, votes)

module _ (i : ℕ) (e : UnresolvedBlock) (l : Level) (start best : Best) where
  abbrev found : Best
  found = record { index = some i; highest = e.ssig_sum }

  IsBest-better :
      IsBest (suc i) l found best
      → links_to 0 e ≡ true
      → start.highest < e.ssig_sum
      → IsBest i (e ∷ l) start best
  IsBest-better w h k = record {
    above = ((λ x. w.at_least), w.above);
    at_least = omega arith;
    source = elim w.source [
      | inl same ↦ inr (
        0,
        e,
        ap (λ (b : Best). b.index) same ∙ ap some (omega arith),
        refl,
        h,
        sym (ap (λ (b : Best). b.highest) same),
      )
      | inr later ↦ inr (Chosen-later i e l best later)
    ];
  }

  IsBest-worse :
      IsBest (suc i) l start best
      → (links_to 0 e ≡ true → e.ssig_sum ≤ start.highest)
      → IsBest i (e ∷ l) start best
  IsBest-worse w h = record {
    above =
        ((λ x. let low : e.ssig_sum ≤ start.highest = h x in omega (arith, w.at_least)), w.above);
    at_least = w.at_least;
    source = elim w.source [
      | inl same ↦ inl same
      | inr later ↦ inr (Chosen-later i e l best later)
    ];
  }

find_best-IsBest : (i : ℕ) (l : Level) (start : Best) → IsBest i l start (find_best i l start)
unfolding find_best
find_best-IsBest i [] start = record { above = tt; at_least = omega arith; source = inl refl }
find_best-IsBest i (e ∷ l) start =
    elim (Bool-cases (links_to 0 e && ltb start.highest e.ssig_sum)) [
      | inl h ↦
          rw h (
            IsBest-better i e l start _ (find_best-IsBest (suc i) l _) (ground arith)
              (ground arith))
      | inr h ↦
          rw h (IsBest-worse i e l start _ (find_best-IsBest (suc i) l start) (λ k. ground arith))
    ]

-- The choice of `e`, at position k of bin 0, whose children are in bin 1.
pub record IsChoice (front next : Level) (e : UnresolvedBlock) : Type 0 where
  pub position : ℕ
  pub there : get_elem? front position ≡ some e
  pub linked : links_to 0 e ≡ true
  pub followed : any (links_to position) next ≡ true
  pub signed : min_signatures ≤ e.ssig_sum
  pub most : All (λ f. links_to 0 f ≡ true → f.ssig_sum ≤ e.ssig_sum) front

-- What `resolve_front` returns: nothing, and the pool as it was, or a choice that is confirmed.
abbrev pub Resolves : Pool → List Level → Resolution → Type 0
Resolves p ls r =
    (r ≡ unresolved p)
    ⊎ ((e : UnresolvedBlock) × (front : Level) × (next : Level) × (rest : List Level) × (ls
          ≡ front ∷ next ∷ rest)
        × IsChoice front next e
        × (r ≡ confirm e front (next ∷ rest) p))

module _ (front next : Level) (rest : List Level) (p : Pool) where
  choose-Chosen :
      (best : Best) (k : ℕ) (e : UnresolvedBlock)
      → best.index ≡ some k
      → get_elem? front k ≡ some e
      → links_to 0 e ≡ true
      → e.ssig_sum ≡ best.highest
      → All (λ f. links_to 0 f ≡ true → f.ssig_sum ≤ best.highest) front
      → Resolves p (front ∷ next ∷ rest) (choose best front next rest p)
  unfolding choose
  choose-Chosen best k e at there linked votes most =
      elim (Bool-cases (ltb best.highest min_signatures)) [
        | inl few ↦ inl (rw (choose, at, few))
        | inr many ↦ elim (Bool-cases (any (links_to k) next)) [
          | inl followed ↦ inr (
            e,
            front,
            next,
            rest,
            refl,
            record {
              position = k;
              there = there;
              linked = linked;
              followed = followed;
              signed = ground arith;
              most = rw votes most;
            },
            rw (choose, at, many, followed, there),
          )
          | inr last ↦ inl (rw (choose, at, many, last))
        ]
      ]

  choose-Resolves :
      (best : Best)
      → IsBest 0 front no_best best
      → Resolves p (front ∷ next ∷ rest) (choose best front next rest p)
  unfolding choose
  choose-Resolves best w = elim w.source [
    | inl none_found ↦
        subst (λ b. Resolves p (front ∷ next ∷ rest) (choose b front next rest p)) (sym none_found)
          (inl refl)
    | inr (k, e, at, there, linked, votes) ↦
        choose-Chosen best k e (at ∙ ap some (omega arith)) there linked votes w.above
  ]

resolve_front-Resolves : (ls : List Level) (p : Pool) → Resolves p ls (resolve_front ls p)
unfolding resolve_front
resolve_front-Resolves [] p = inl refl
resolve_front-Resolves (l ∷ []) p = inl refl
resolve_front-Resolves ([] ∷ m ∷ ls) p = inl refl
resolve_front-Resolves ((e ∷ l) ∷ [] ∷ ls) p = inl refl
resolve_front-Resolves ((e ∷ l) ∷ (f ∷ m) ∷ ls) p =
    choose-Resolves (e ∷ l) (f ∷ m) ls p _ (find_best-IsBest 0 (e ∷ l) no_best)

-- The pool with the signatures counted.
abbrev pub counted : Pool → Pool
counted p = record p { levels = tallied p.levels }

-- `resolve_block` leaves the pool alone when the new block is not far enough above the confirmed
-- one. Else it counts the signatures, and confirms nothing or a linked block of bin 0 that some block
-- of bin 1 follows, whose subtree has a signature and at least as many as that of any other.
pub resolve_block-Resolves :
    (b : Block) (p : Pool)
    → (resolve_block b p ≡ unresolved p)
      ⊎ Resolves (counted p) (tallied p.levels) (resolve_block b p)
unfolding resolve_block
resolve_block-Resolves b p =
    elim (Bool-cases (ltb confirm_level (sub64 b.height p.confirmed_height))) [
      | inl far ↦ rw far (
          rw update_total_num_ssig-eq-tallied
            (inr (resolve_front-Resolves (tallied p.levels) (counted p))))
      | inr near ↦ rw near (inl refl)
    ]
