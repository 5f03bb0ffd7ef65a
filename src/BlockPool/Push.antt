-- ===== src/BlockPool/Push.antt =====
-- pushBlock always returns, keeps the pool valid, and adds the block exactly when it can be linked
-- into its bin and is not there yet.
use gruut.Base.{
  ℕ, zero, suc, ◌+◌, ◌-◌, ◌<◌, ◌^◌, String, ◌≡◌, refl, ◌∙◌, Bool, true, false, Option, some, List,
  [], ◌∷◌, arith, leb, str_eq, length, get_or, find_index, any, Bool-cases, All-append, ◌||◌, ◌⊎◌,
  inl, inr,
}
use gruut.Base.Int.{pos}
use gruut.BlockPool.{
  Block, Level, Pool, PushResult, not_added, duplicate, is_parent, grow, add_at, same_block,
  deq_index, prepare_deque, push_block, place_block, link_block, add_block, too_early,
}
use gruut.BlockPool.Links.{
  IsValid, Linked-grow, AllFrom-grow, Linked-add_at, Linked-add_root, AllFrom-add_at,
  HasHeight-relink, HasHeight, Positions-relink, Positions-append, Distinct-relink, Distinct-append,
  Positions, Distinct, Linked,
}

deq_index-above :
    (p : Pool) (t : ℕ)
    → p.confirmed_height < t
    → t < 2 ^ 31
    → deq_index p t ≡ pos (t - p.confirmed_height - 1)
deq_index-above p t h k = ground arith

-- The pool once bin d is there.
abbrev pub grown : ℕ → Pool → Pool
grown d p = record p { levels = grow (suc d) p.levels }

-- The height is refused: it is confirmed already, or not due yet.
abbrev pub refused : ℕ → Block → Pool → Bool
refused now b p = leb b.height p.confirmed_height || too_early now b.height p

-- pushBlock refuses the height, or goes on with the bin of the height.
pub push_block_cases :
    (now : ℕ) (b : Block) (p : Pool)
    → b.height < 2 ^ 31
    → ((refused now b p ≡ true) × (push_block now b p ≡ some (not_added, p)))
      ⊎ ((refused now b p ≡ false)
          × ((d : ℕ) × (b.height ≡ p.confirmed_height + suc d)
              × (push_block now b p ≡ place_block (pos d) b (grown d p))))
unfolding push_block
push_block_cases now b p h = elim (Bool-cases (leb b.height p.confirmed_height)) [
  | inl low ↦ inl (ground arith, rw (push_block, prepare_deque, low))
  | inr high ↦ elim (Bool-cases (too_early now b.height p)) [
    | inl early ↦ inl (ground arith, rw (push_block, prepare_deque, high, early))
    | inr due ↦
        let above : p.confirmed_height < b.height = ground arith in
        inr (
          ground arith,
          (
            b.height - p.confirmed_height - 1,
            omega arith,
            rw (
              push_block,
              prepare_deque,
              high,
              due,
              deq_index-above p b.height above h,
              deq_index-above p b.height above h,
            ),
          ),
        )
  ]
]

module _ (b : Block) (prev : Option ℕ) (d : ℕ) (p : Pool) (v : IsValid p)
    (height : b.height ≡ p.confirmed_height + suc d) (low : b.height < 2 ^ 31)
    (fresh : any (λ e. same_block e.block b) (get_or p.levels d []) ≡ false) where
  -- With the right link for the block the new pool is valid.
  add_block-IsValid :
      Linked p.confirmed_id (add_at d b (length (get_or p.levels d [])) prev p.levels)
      → IsValid (add_block d b prev p).1
  unfolding add_block
  add_block-IsValid links = record {
    links = links;
    heights =
        AllFrom-add_at HasHeight b prev (HasHeight-relink b) d p.confirmed_height p.levels
          (λ k e x. All-append _ (get_or p.levels d []) _ x (((omega arith), (omega arith)), tt))
          v.heights;
    positions =
        AllFrom-add_at (λ _. Positions 0) b prev (λ _. Positions-relink b 0) d 0 p.levels
          (λ k e x. Positions-append b prev 0 _ (get_or p.levels d []) (omega arith) x) v.positions;
    distinct =
        AllFrom-add_at (λ _. Distinct) b prev (λ _. Distinct-relink b) d 0 p.levels
          (λ k e x. Distinct-append _ (get_or p.levels d []) fresh x) v.distinct;
    small = v.small;
  }

Linked-root :
    (b : Block) (id : String) (ls : List Level)
    → str_eq b.prev_id id ≡ true
    → Linked id ls
    → Linked id (add_at 0 b (length (get_or ls 0 [])) (some 0) ls)
Linked-root b id [] e c = tt
Linked-root b id (l ∷ ls) e c = Linked-add_root id b l ls e c

Linked-later :
    (d : ℕ) (b : Block) (id : String) (ls : List Level)
    → Linked id ls
    → Linked id (
        add_at
          (suc d)
          b
          (length (get_or ls (suc d) []))
          (find_index (is_parent b) (get_or ls d []))
          ls)
Linked-later d b id [] c = tt
Linked-later d b id (l ∷ ls) c = Linked-add_at d id b _ l ls refl c

link_block-IsValid :
    (d : ℕ) (b : Block) (p : Pool)
    → IsValid p
    → b.height ≡ p.confirmed_height + suc d
    → b.height < 2 ^ 31
    → any (λ e. same_block e.block b) (get_or p.levels d []) ≡ false
    → IsValid (link_block d b p).1
unfolding link_block
link_block-IsValid zero b p v h low fresh = elim (Bool-cases (str_eq b.prev_id p.confirmed_id)) [
  | inl e ↦
      rw e (add_block-IsValid b (some 0) 0 p v h low fresh (Linked-root b _ p.levels e v.links))
  | inr e ↦ rw e v
]
link_block-IsValid (suc d) b p v h low fresh =
    add_block-IsValid b _ (suc d) p v h low fresh (Linked-later d b _ p.levels v.links)

place_block-IsValid :
    (d : ℕ) (b : Block) (p : Pool)
    → IsValid p
    → b.height ≡ p.confirmed_height + suc d
    → b.height < 2 ^ 31
    → (r : PushResult × Pool) × (place_block (pos d) b p ≡ some r) × IsValid r.1
unfolding place_block
place_block-IsValid d b p v h low =
    elim (Bool-cases (any (λ e. same_block e.block b) (get_or p.levels d []))) [
      | inl e ↦ ((duplicate b, p), rw e refl, v)
      | inr e ↦ (link_block d b p, rw e refl, link_block-IsValid d b p v h low e)
    ]

grown-IsValid : (d : ℕ) (p : Pool) → IsValid p → IsValid (grown d p)
grown-IsValid d p v = record {
  links = Linked-grow (suc d) p.confirmed_id p.levels v.links;
  heights = AllFrom-grow HasHeight (λ h. tt) (suc d) p.confirmed_height p.levels v.heights;
  positions = AllFrom-grow _ (λ h. tt) (suc d) 0 p.levels v.positions;
  distinct = AllFrom-grow _ (λ h. tt) (suc d) 0 p.levels v.distinct;
  small = v.small;
}

-- From a valid pool, for a block whose height is below 2 ^ 31, `push_block` returns a result, at
-- whatever time, and the pool it leaves is valid.
pub push_block-IsValid :
    (now : ℕ) (b : Block) (p : Pool)
    → IsValid p
    → b.height < 2 ^ 31
    → (r : PushResult × Pool) × (push_block now b p ≡ some r) × IsValid r.1
push_block-IsValid now b p v h = elim (push_block_cases now b p h) [
  | inl (_, e) ↦ (_, e, v)
  | inr (_, (d, height, e)) ↦
      let (r, f, w) = place_block-IsValid d b (grown d p) (grown-IsValid d p v) height h in
      (r, e ∙ f, w)
]
