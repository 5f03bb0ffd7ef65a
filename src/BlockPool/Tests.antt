-- ===== src/BlockPool/Tests.antt =====
-- Runs of the pool on a fork, and instances of its theorems.
use mathlib.Core.Option
use gruut.Base.{suc, ◌+◌, ◌⊎◌, ℕ, ◌≡◌, refl, Option, none, some, List, [], ◌∷◌, map, arith}
use gruut.BlockPool.{
  Signature, Block, UnresolvedBlock, Pool, PushResult, new_unresolved, init, set_pool, push_block,
  too_early,
}
use gruut.BlockPool.Paths.{get_path, walk}
use gruut.BlockPool.Paths.Ancestry.{Answer, get_path-Answer}
use gruut.BlockPool.Links.{IsValid}
use gruut.BlockPool.Push.{push_block-IsValid}
use gruut.BlockPool.Contents.{Outcome, push_block-Outcome}
use gruut.BlockPool.Votes.{tallied, update_total_num_ssig-eq-tallied}
use gruut.BlockPool.Resolve.{unresolved, resolve_block, update_total_num_ssig, confirm}
use gruut.BlockPool.Resolve.Choice.{Resolves, counted, IsChoice, resolve_block-Resolves}
use gruut.BlockPool.Resolve.Live.{resolve_block-confirm}
use gruut.BlockPool.Resolve.Confirm.{Extends, resolve_block-IsValid, resolve_block-Extends}

abbrev signed : List Signature
signed = record { signer_id = "s"; signer_sig = "x" } ∷ []

abbrev signed_twice : List Signature
signed_twice = record { signer_id = "t"; signer_sig = "y" } ∷ signed

abbrev left : Block
left = record {
  block_id = "L";
  height = 11;
  prev_id = "C";
  block_hash = "hL";
  signers = signed_twice;
}

abbrev right : Block
right = record { block_id = "R"; height = 11; prev_id = "C"; block_hash = "hR"; signers = signed }

abbrev upper : Block
upper = record {
  block_id = "U";
  height = 12;
  prev_id = "R";
  block_hash = "hU";
  signers = signed_twice;
}

abbrev top : Block
top = record { block_id = "T"; height = 14; prev_id = "V"; block_hash = "hT"; signers = [] }

abbrev empty_pool : Pool
empty_pool = record {
  levels = [];
  confirmed_id = "C";
  confirmed_height = 10;
  confirmed_time = 1000;
  confirmed_hash = "hC";
  confirmed_prev_id = "B";
}

-- Two children of the confirmed block, and a child of the second.
abbrev forked : Pool
forked = record empty_pool {
  levels =
      (new_unresolved left 0 (some 0) ∷ new_unresolved right 1 (some 0) ∷ [])
      ∷ (new_unresolved upper 0 (some 1) ∷ [])
      ∷ [];
}

start_pool : set_pool "C" 10 1000 "hC" "B" init ≡ empty_pool
unfolding set_pool init
start_pool = refl

abbrev bind_push : Option (PushResult × Pool) → ℕ → Block → Option (PushResult × Pool)
bind_push none now b = none
bind_push (some (r, p)) now b = push_block now b p

-- A child may arrive before its parent: its link is made when the parent comes.
late_parent :
    Option.map
      (λ (r : PushResult × Pool). r.1)
      (bind_push (bind_push (push_block 1050 left empty_pool) 1050 upper) 1050 right)
    ≡ some forked
unfolding push_block too_early
late_parent = refl

forked-IsValid : IsValid forked
forked-IsValid = record {
  links = ((refl, (refl, tt)), ((refl, tt), tt));
  heights = omega arith;
  positions = ((refl, (refl, tt)), ((refl, tt), tt));
  distinct = ((refl, (refl, tt)), ((refl, tt), tt));
  small = omega arith;
}

push_block-IsValid_example :
    (r : PushResult × Pool) × (push_block 1050 top forked ≡ some r) × IsValid r.1
push_block-IsValid_example = push_block-IsValid 1050 top forked forked-IsValid (omega arith)

push_block-Outcome_example :
    (r : PushResult × Pool) × (push_block 1050 top forked ≡ some r) × Outcome top forked r
push_block-Outcome_example = push_block-Outcome 1050 top forked (omega arith) (omega arith)

update_total_num_ssig-eq-tallied_example :
    update_total_num_ssig forked ≡ record forked { levels = tallied forked.levels }
update_total_num_ssig-eq-tallied_example = update_total_num_ssig-eq-tallied forked

tallies :
    map (map (λ (e : UnresolvedBlock). e.ssig_sum)) (tallied forked.levels)
    ≡ (2 ∷ 3 ∷ []) ∷ (2 ∷ []) ∷ []
tallies = refl

-- The right block has the most signatures with its child's.
abbrev winner : UnresolvedBlock
winner = record (new_unresolved right 1 (some 0)) { ssig_sum = 3 }

resolved_right : (resolve_block top forked).resolved ≡ some winner
unfolding resolve_block confirm update_total_num_ssig
resolved_right = refl

resolve_block-Resolves_example :
    (resolve_block top forked ≡ unresolved forked)
    ⊎ Resolves (counted forked) (tallied forked.levels) (resolve_block top forked)
resolve_block-Resolves_example = resolve_block-Resolves top forked

resolve_block-IsValid_example : IsValid (resolve_block top forked).pool
resolve_block-IsValid_example = resolve_block-IsValid top forked forked-IsValid

resolve_block-Extends_example : Extends forked winner (resolve_block top forked)
resolve_block-Extends_example =
    resolve_block-Extends top forked winner forked-IsValid resolved_right

abbrev left_counted : UnresolvedBlock
left_counted = record (new_unresolved left 0 (some 0)) { ssig_sum = 2 }

abbrev upper_counted : UnresolvedBlock
upper_counted = record (new_unresolved upper 0 (some 1)) { ssig_sum = 2 }

-- The right block is the choice: the left one, before it, has fewer signatures.
abbrev right_choice : IsChoice (left_counted ∷ winner ∷ []) (upper_counted ∷ []) winner
right_choice = record {
  position = 1;
  there = refl;
  linked = refl;
  followed = refl;
  signed = omega arith;
  most = ((λ h. omega arith), ((λ h. omega arith), tt));
}

resolve_block-confirm_example :
    resolve_block top forked
    ≡ confirm winner (left_counted ∷ winner ∷ []) ((upper_counted ∷ []) ∷ []) (counted forked)
resolve_block-confirm_example =
    resolve_block-confirm top forked (left_counted ∷ winner ∷ []) (upper_counted ∷ []) [] winner
      right_choice (omega arith) refl ((λ h. omega arith), tt)

-- The path to the upper block leads over the right one.
abbrev upper_path : List (Option ℕ)
upper_path = some 1 ∷ some 0 ∷ []

path_to_upper : get_path "U" 12 forked ≡ some upper_path
unfolding get_path walk
path_to_upper = refl

get_path-Answer_example :
    ((forked.confirmed_height + 2 ≡ forked.confirmed_height) × (upper_path ≡ []))
    ⊎ ((d : ℕ) × (forked.confirmed_height + 2 ≡ forked.confirmed_height + suc d)
        × Answer forked "U" d upper_path)
get_path-Answer_example =
    get_path-Answer "U" 12 forked upper_path forked-IsValid (omega arith) path_to_upper
