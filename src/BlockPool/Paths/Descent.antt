-- ===== src/BlockPool/Paths/Descent.antt =====
-- The walk of getPath down the links: from each block to its parent in the bin below.
use gruut.Base.{
  ℕ, zero, suc, ◌+◌, ◌≡◌, refl, sym, ap, subst, ◌∙◌, ◌⊎◌, inl, inr, String, Option, none, some,
  List, [], ◌∷◌, ◌++◌, arith, eq_iff, length, length-append, get_elem?, find_index_found,
  All-get_elem?, Option-cases,
}
use gruut.BlockPool.{UnresolvedBlock, Level, is_parent}
use gruut.BlockPool.Links.{Chain, Linked, parent_link}
use gruut.BlockPool.Paths.{at?, prev_of, push_back, walk}

-- The block at position v of bin d is the parent of that at position w of the next bin.
abbrev pub ParentAt : List Level → ℕ → Option ℕ → Option ℕ → Type 0
ParentAt ls d v w =
    (i : ℕ) × (j : ℕ) × (parent : UnresolvedBlock) × (child : UnresolvedBlock) × (v ≡ some i)
    × (w ≡ some j)
    × (at? ls d i ≡ some parent)
    × (at? ls (suc d) j ≡ some child)
    × (parent.block.block_id ≡ child.block.prev_id)

abbrev pub Steps : List Level → ℕ → List (Option ℕ) → Type 0
Steps ls d [] = Unit
Steps ls d (v ∷ []) = Unit
Steps ls d (v ∷ w ∷ path) = ParentAt ls d v w × Steps ls (suc d) (w ∷ path)

Steps-snoc :
    (ls : List Level) (d k : ℕ) (init : List (Option ℕ)) (w v : Option ℕ)
    → k ≡ d + length init
    → Steps ls d (init ++ w ∷ [])
    → ParentAt ls k w v
    → Steps ls d ((init ++ w ∷ []) ++ v ∷ [])
Steps-snoc ls d k [] w v e h p =
    let same : k ≡ d = omega arith in (subst (λ n. ParentAt ls n w v) same p, tt)
Steps-snoc ls d k (x ∷ []) w v e h p = (h.0, Steps-snoc ls (suc d) k [] w v (omega arith) tt p)
Steps-snoc ls d k (x ∷ y ∷ init) w v e h p =
    (h.0, Steps-snoc ls (suc d) k (y ∷ init) w v (omega arith) h.1 p)

-- The link of a block leads to its parent.
Chain-at :
    (above : Level) (ls : List Level) (d j : ℕ) (e : UnresolvedBlock)
    → Chain above ls
    → at? ls d j ≡ some e
    → (l : Level) × (get_elem? (above ∷ ls) d ≡ some l) × (e.prev_vec_idx ≡ parent_link l e)
Chain-at above [] d j e c h = cc
Chain-at above (l ∷ ls) zero j e c h = (above, refl, All-get_elem? _ l j e c.0 h)
Chain-at above (l ∷ ls) (suc d) j e c h = Chain-at l ls d j e c.1 h

Linked-at :
    (id : String) (ls : List Level) (d j : ℕ) (e : UnresolvedBlock)
    → Linked id ls
    → at? ls (suc d) j ≡ some e
    → (l : Level) × (get_elem? ls d ≡ some l) × (e.prev_vec_idx ≡ parent_link l e)
Linked-at id [] d j e c h = cc
Linked-at id (l ∷ ls) d j e c h = Chain-at l ls d j e c.1 h

ParentAt-link :
    (id : String) (ls : List Level) (d i j : ℕ) (e : UnresolvedBlock)
    → Linked id ls
    → at? ls (suc d) j ≡ some e
    → e.prev_vec_idx ≡ some i
    → ParentAt ls d (some i) (some j)
ParentAt-link id ls d i j e c h link =
    let (l, there, search) = Linked-at id ls d j e c h in
    let (parent, at, hit) = find_index_found (is_parent e.block) l i (sym search ∙ link) in
    (i, j, parent, e, refl, refl, rw (at?, there) at, h, (eq_iff _ _).0 hit)

pub prev_of-some :
    (ls : List Level) (d : ℕ) (v w : Option ℕ)
    → prev_of ls d v ≡ some w
    → (j : ℕ) × (e : UnresolvedBlock) × (v ≡ some j) × (at? ls d j ≡ some e) × (e.prev_vec_idx ≡ w)
prev_of-some ls d none w h = cc
prev_of-some ls d (some j) w h = elim (Option-cases (at? ls d j)) [
  | inl e ↦ let h' : none ≡ some w = rw (prev_of, e) at h in cc
  | inr (e, at) ↦
      let h' : some e.prev_vec_idx ≡ some w = rw (prev_of, at) at h in
      let link : e.prev_vec_idx ≡ w = cc in (j, e, refl, at, link)
]

-- A walk ends with the position it starts from, and unless its last link is missing it goes from
-- parent to child.
pub record IsWalk (ls : List Level) (d : ℕ) (v : Option ℕ) (path : List (Option ℕ)) : Type 0 where
  pub init : List (Option ℕ)
  pub ends : path ≡ init ++ v ∷ []
  pub size : length init ≡ d
  pub steps : ((rest : List (Option ℕ)) × (path ≡ none ∷ rest)) ⊎ Steps ls 0 path

-- A walk from no position, which is not in bin 0, has no result.
pub walk_never :
    (ls : List Level) (d : ℕ) (path : List (Option ℕ)) → walk ls (suc d) none ≡ some path → ⊥
unfolding walk
walk_never ls d path h = cc

more-Steps :
    (id : String) (ls : List Level) (d : ℕ) (v w : Option ℕ) (below : List (Option ℕ))
    → Linked id ls
    → prev_of ls (suc d) v ≡ some w
    → walk ls d w ≡ some below
    → IsWalk ls d w below
    → ((rest : List (Option ℕ)) × (below ++ v ∷ [] ≡ none ∷ rest)) ⊎ Steps ls 0 (below ++ v ∷ [])
unfolding walk
more-Steps id ls zero v none below c e f k =
    let same : below ≡ none ∷ [] = cc in inl (v ∷ [], ap (λ ps. ps ++ v ∷ []) same)
more-Steps id ls (suc d) v none below c e f k = elim (walk_never ls d below f) [ ]
more-Steps id ls d v (some i) below c e f k = elim k.steps [
  | inl (rest, first) ↦ inl (rest ++ v ∷ [], ap (λ ps. ps ++ v ∷ []) first)
  | inr s ↦
      let (j, child, at_j, there, link) = prev_of-some ls (suc d) v (some i) e in
      let parent : ParentAt ls d (some i) v =
        subst (ParentAt ls d (some i)) (sym at_j) (ParentAt-link id ls d i j child c there link) in
      let steps : Steps ls 0 (k.init ++ some i ∷ []) = subst (Steps ls 0) k.ends s in
      inr (
        subst (λ ps. Steps ls 0 (ps ++ v ∷ [])) (sym k.ends)
          (Steps-snoc ls 0 d k.init (some i) v (let e = k.size in omega arith) steps parent))
]

pub walk-IsWalk :
    (id : String) (ls : List Level) (d : ℕ) (v : Option ℕ) (path : List (Option ℕ))
    → Linked id ls
    → walk ls d v ≡ some path
    → IsWalk ls d v path
unfolding walk
walk-IsWalk id ls zero v path c h =
    let same : v ∷ [] ≡ path = cc in
    record { init = []; ends = sym same; size = refl; steps = inr (subst (Steps ls 0) same tt) }
walk-IsWalk id ls (suc d) v path c h = elim (Option-cases (prev_of ls (suc d) v)) [
  | inl e ↦ let h' : none ≡ some path = rw (walk, e) at h in cc
  | inr (w, e) ↦ elim (Option-cases (walk ls d w)) [
    | inl f ↦ let h' : none ≡ some path = rw (walk, e, push_back, f) at h in cc
    | inr (below, f) ↦
        let h' : some (below ++ v ∷ []) ≡ some path = rw (walk, e, push_back, f) at h in
        let same : below ++ v ∷ [] ≡ path = cc in
        let k = walk-IsWalk id ls d w below c f in
        let size : length (k.init ++ w ∷ []) ≡ suc d =
          length-append k.init (w ∷ []) ∙ (let e = k.size in omega arith) in
        subst (IsWalk ls (suc d) v) same (record {
          init = below;
          ends = refl;
          size = subst (λ ps. length ps ≡ suc d) (sym k.ends) size;
          steps = more-Steps id ls d v w below c e f k;
        })
  ]
]
