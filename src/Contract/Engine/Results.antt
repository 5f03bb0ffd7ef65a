-- ===== src/Contract/Engine/Results.antt =====
-- The results of a block.
use gruut.Base.{
  ◌≡◌, refl, suc, subst, ◌||◌, ap, ◌∙◌, inl, inr, Option, none, some, List, [], ◌∷◌, length,
  length-map, if◌then◌else◌, All, Bool-cases, Option-cases,
}
use gruut.Base.Int.{pos}
use gruut.Contract.Engine.{
  ReadContract, ContractCache, Loop, Composed, compose_one, compose, Processed, nothing, thrown,
  processed, proc_tx, proc_txs, proc_block,
}
use gruut.Contract.DataManager.{DataAttribute, new_data_manager}
use gruut.Contract.DataManager.Lookups.{get_world, get_chain, no_attributes}
use gruut.Contract.Condition.Manager.{new_manager}
use gruut.Contract.Runner.{Surroundings, RunResult}
use gruut.Contract.Runner.Transaction.{Tx, min_user_fee}

-- A failure has a reason, costs the user the least fee and the author nothing, and does nothing.
abbrev pub IsComposed : Composed → Type 0
IsComposed c =
    if c.status
    then c.info ≡ none
    else (c.queries ≡ none) × (c.authority ≡ none) × (c.fee ≡ some (pos min_user_fee, pos 0))

abbrev pub HasResults : List Tx → Processed → Type 0
HasResults txs nothing = Unit
HasResults txs thrown = Unit
HasResults txs (processed cs) = (length cs ≡ length txs) × All IsComposed cs

module _ (sr : Surroundings) (read : ReadContract) (world chain : List DataAttribute) where
  abbrev OnePerTx : List Tx → Option (List RunResult) → Type 0
  OnePerTx txs none = Unit
  OnePerTx txs (some rs) = length rs ≡ length txs

  proc_txs-OnePerTx :
      (txs : List Tx) (l : Loop) → OnePerTx txs (proc_txs sr read world chain txs l).0
  unfolding proc_txs
  proc_txs-OnePerTx [] l = refl
  proc_txs-OnePerTx (tx ∷ txs) l =
      let (r, l') = proc_tx sr read world chain tx l in
      elim (Option-cases r) [
        | inl e ↦ rw e tt
        | inr (res, e) ↦ elim (Option-cases (proc_txs sr read world chain txs l').0) [
          | inl f ↦ rw (e, f) tt
          | inr (rs, f) ↦
              let rest = proc_txs-OnePerTx txs l' in
              rw (e, f) (ap suc (subst (OnePerTx txs) f rest))
        ]
      ]

compose_one-IsComposed : (r : RunResult) → IsComposed (compose_one r)
compose_one-IsComposed r = elim (Bool-cases r.status) [
  | inl e ↦ rw e refl
  | inr e ↦ rw e (refl, refl, refl)
]

compose-IsComposed : (rs : List RunResult) → All IsComposed (compose rs)
unfolding compose
compose-IsComposed [] = tt
compose-IsComposed (r ∷ rs) = (compose_one-IsComposed r, compose-IsComposed rs)

-- A block that is processed has one result for each of its transactions; one with the status false has
-- no queries and no authority, and its fee is the least fee for the user and nothing for the author,
-- whatever the fee directives say.
pub proc_block-HasResults :
    (sr : Surroundings) (read : ReadContract) (txs : List Tx) (cache : ContractCache)
    → HasResults txs (proc_block sr read txs cache).0
unfolding proc_block compose
proc_block-HasResults sr read [] cache = tt
proc_block-HasResults sr read (tx ∷ txs) cache =
    let (world, dm1) = get_world sr.storage new_data_manager in
    let (chain, dm2) = get_chain sr.storage dm1 in
    let l : Loop = record {
      data_manager = dm2;
      condition_manager = new_manager;
      contract_cache = cache;
    } in
    let each = proc_txs-OnePerTx sr read world chain (tx ∷ txs) l in
    elim (Bool-cases (no_attributes world || no_attributes chain)) [
      | inl e ↦ rw e tt
      | inr e ↦ elim (Option-cases (proc_txs sr read world chain (tx ∷ txs) l).0) [
        | inl f ↦ rw (e, f) tt
        | inr (rs, f) ↦
            rw (e, f)
              (
                length-map compose_one rs ∙ subst (OnePerTx sr read world chain (tx ∷ txs)) f each,
                compose-IsComposed rs,
              )
      ]
    ]
