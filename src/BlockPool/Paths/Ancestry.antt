-- ===== src/BlockPool/Paths/Ancestry.antt =====
-- The path that getPath gives: block by block from the confirmed one up to the one asked for.
use native.Mathlib.Decide.{dec_lt}
use gruut.Base.{
  ◌+◌, ◌-◌, ◌<◌, ◌^◌, ℕ, zero, suc, ◌≡◌, ◌≢◌, refl, sym, ap, subst, ◌∙◌, ◌⊎◌, inl, inr, String,
  Option, none, some, List, [], ◌∷◌, ◌++◌, arith, str_eq, eq_iff, length, length-append, get_elem?,
  find_index, find_index_found, All-get_elem?, Option-cases, Bool-cases,
}
use gruut.Base.Int.{
  ℤ, pos, negsuc, sub64, sub64-eq-sub, pred_ℤ-to_int, pred_ℤ-to_int-sub64, pred_ℤ-to_int_zero,
}
use gruut.BlockPool.{UnresolvedBlock, Level, Pool, deq_index}
use gruut.BlockPool.Links.{IsValid, Linked, root_link}
use gruut.BlockPool.Paths.{at?, prev_of, walk, check_root, path_from, path_at, get_path}
use gruut.BlockPool.Paths.Descent.{Steps, IsWalk, walk-IsWalk, prev_of-some, walk_never}

-- The path from the confirmed block to the block with the id: bin by bin one block, the first a child
-- of the confirmed block, each other one a child of the block before it, the last the block itself.
pub record IsPathTo (p : Pool) (id : String) (d : ℕ) (path : List (Option ℕ)) : Type 0 where
  pub size : length path ≡ suc d
  pub steps : Steps p.levels 0 path
  pub root :
      (i : ℕ) × (e : UnresolvedBlock) × (get_elem? path 0 ≡ some (some i))
      × (at? p.levels 0 i ≡ some e)
      × (e.block.prev_id ≡ p.confirmed_id)
  pub last :
      (j : ℕ) × (e : UnresolvedBlock) × (get_elem? path d ≡ some (some j))
      × (at? p.levels d j ≡ some e)
      × (e.block.block_id ≡ id)

-- What a call of getPath gives for bin d: a cut path, whose only block has no link to the confirmed
-- one, or the path to the block.
abbrev pub Answer : Pool → String → ℕ → List (Option ℕ) → Type 0
Answer p id d path =
    ((v : Option ℕ) × (path ≡ v ∷ []) × (prev_of p.levels 0 v ≢ some (some 0)))
    ⊎ IsPathTo p id d path

get_elem?-snoc :
    (init : List (Option ℕ)) (v : Option ℕ) (d : ℕ)
    → length init ≡ d
    → get_elem? (init ++ v ∷ []) d ≡ some v
get_elem?-snoc [] v zero h = refl
get_elem?-snoc [] v (suc d) h = cc
get_elem?-snoc (x ∷ init) v zero h = cc
get_elem?-snoc (x ∷ init) v (suc d) h = get_elem?-snoc init v d (omega arith)

Linked-root :
    (id : String) (ls : List Level) (i : ℕ) (e : UnresolvedBlock)
    → Linked id ls
    → at? ls 0 i ≡ some e
    → e.prev_vec_idx ≡ some 0
    → e.block.prev_id ≡ id
Linked-root id [] i e c h link = cc
Linked-root id (l ∷ ls) i e c h link =
    let search : e.prev_vec_idx ≡ root_link id e = All-get_elem? _ l i e c.0 h in
    elim (Bool-cases (str_eq e.block.prev_id id)) [
      | inl s ↦ (eq_iff _ _).0 s
      | inr s ↦ let none_there : root_link id e ≡ none = rw (root_link, s) refl in cc
    ]

walk-none :
    (ls : List Level) (d : ℕ) (path : List (Option ℕ))
    → walk ls d none ≡ some path
    → (rest : List (Option ℕ)) × (path ≡ none ∷ rest)
unfolding walk
walk-none ls zero path h = let same : path ≡ none ∷ [] = cc in ([], same)
walk-none ls (suc d) path h = elim (walk_never ls d path h) [ ]

module _ (p : Pool) (valid : IsValid p) (id : String) (d : ℕ) (l : Level)
    (there : get_elem? p.levels d ≡ some l) where
  abbrev found : Option ℕ
  found = find_index (λ (e : UnresolvedBlock). str_eq id e.block.block_id) l

  last_of :
      (v : Option ℕ) (path : List (Option ℕ))
      → found ≡ v
      → IsWalk p.levels d v path
      → ((rest : List (Option ℕ)) → path ≢ none ∷ rest)
      → walk p.levels d v ≡ some path
      → (j : ℕ) × (e : UnresolvedBlock) × (get_elem? path d ≡ some (some j))
        × (at? p.levels d j ≡ some e)
        × (e.block.block_id ≡ id)
  unfolding walk
  last_of none path f k first w =
      let (rest, eq) = walk-none p.levels d path w in elim (first rest eq) [ ]
  last_of (some j) path f k first w =
      let (e, at, hit) =
        find_index_found (λ (e : UnresolvedBlock). str_eq id e.block.block_id) l j f in
      (
        j,
        e,
        subst (λ ps. get_elem? ps d ≡ some (some j)) (sym k.ends)
            (get_elem?-snoc k.init (some j) d k.size),
        rw (at?, there) at,
        sym ((eq_iff _ _).0 hit),
      )

  full-Answer :
      (v0 : Option ℕ) (rest : List (Option ℕ))
      → walk p.levels d found ≡ some (v0 ∷ rest)
      → prev_of p.levels 0 v0 ≡ some (some 0)
      → IsPathTo p id d (v0 ∷ rest)
  full-Answer v0 rest w linked =
      let k = walk-IsWalk p.confirmed_id p.levels d found (v0 ∷ rest) valid.links w in
      let (i, e, at_i, here, link) = prev_of-some p.levels 0 v0 (some 0) linked in
      let first : (qs : List (Option ℕ)) → (v0 ∷ rest) ≢ none ∷ qs = λ qs q. cc in
      record {
        size =
            ap length k.ends ∙ length-append k.init (found ∷ []) ∙ (let s = k.size in omega arith);
        steps = elim k.steps [ inl (qs, q) ↦ elim (first qs q) [ ] | inr s ↦ s ];
        root = (
          i,
          e,
          ap some at_i,
          here,
          Linked-root p.confirmed_id p.levels i e valid.links here link,
        );
        last = last_of found (v0 ∷ rest) refl k first w;
      }

  check_root-Answer :
      (o : Option (Option ℕ)) (v0 : Option ℕ) (rest path : List (Option ℕ))
      → prev_of p.levels 0 v0 ≡ o
      → walk p.levels d found ≡ some (v0 ∷ rest)
      → check_root p.levels (v0 ∷ rest) ≡ some path
      → Answer p id d path
  check_root-Answer none v0 rest path e w h =
      let h' : none ≡ some path = rw (check_root, e) at h in cc
  check_root-Answer (some none) v0 rest path e w h =
      let h' : some (v0 ∷ []) ≡ some path = rw (check_root, e) at h in
      let same : path ≡ v0 ∷ [] = cc in inl (v0, same, λ q. cc)
  check_root-Answer (some (some zero)) v0 rest path e w h =
      let h' : some (v0 ∷ rest) ≡ some path = rw (check_root, e) at h in
      let same : v0 ∷ rest ≡ path = cc in subst (Answer p id d) same (inr (full-Answer v0 rest w e))
  check_root-Answer (some (some (suc n))) v0 rest path e w h =
      let h' : some (v0 ∷ []) ≡ some path = rw (check_root, e) at h in
      let same : path ≡ v0 ∷ [] = cc in inl (v0, same, λ q. cc)

  path_from-Answer :
      (o : Option (List (Option ℕ))) (path : List (Option ℕ))
      → walk p.levels d found ≡ o
      → path_from p.levels id d l ≡ some path
      → Answer p id d path
  unfolding path_from
  path_from-Answer none path w h = let h' : none ≡ some path = rw (path_from, w) at h in cc
  path_from-Answer (some []) path w h = let h' : none ≡ some path = rw (path_from, w) at h in cc
  path_from-Answer (some (v0 ∷ rest)) path w h =
      let h' : check_root p.levels (v0 ∷ rest) ≡ some path = rw (path_from, w) at h in
      check_root-Answer (prev_of p.levels 0 v0) v0 rest path refl w h'

deq_index-Answer :
    (id : String) (height : ℕ) (p : Pool) (path : List (Option ℕ))
    → IsValid p
    → get_path id height p ≡ some path
    → ((deq_index p height ≡ negsuc 0) × (path ≡ []))
      ⊎ ((d : ℕ) × (deq_index p height ≡ pos d) × Answer p id d path)
unfolding get_path
deq_index-Answer id height p path valid h = elim (Bool-cases (str_eq id "")) [
  | inl e ↦ let h' : none ≡ some path = rw (get_path, e) at h in cc
  | inr e ↦ at_index (deq_index p height) refl (rw (get_path, e) at h)
]
  where
    at_index :
        (z : ℤ)
        → deq_index p height ≡ z
        → (elim z [ pos d ↦ path_at p.levels id d | negsuc zero ↦ some [] | negsuc (suc n) ↦ none ])
          ≡ some path
        → ((deq_index p height ≡ negsuc 0) × (path ≡ []))
          ⊎ ((d : ℕ) × (deq_index p height ≡ pos d) × Answer p id d path)
    at_index (negsuc zero) i k = let same : path ≡ [] = cc in inl (i, same)
    at_index (negsuc (suc n)) i k = cc
    at_index (pos d) i k = elim (Option-cases (get_elem? p.levels d)) [
      | inl e ↦ let k' : none ≡ some path = rw (path_at, e) at k in cc
      | inr (l, e) ↦
          let k' : path_from p.levels id d l ≡ some path = rw (path_at, e) at k in
          inr (d, i, path_from-Answer p valid id d l e (walk p.levels d _) path refl k')
    ]

-- On a valid pool, for a height below 2 ^ 31: when `get_path` gives a path, the height is the confirmed
-- one and the path is empty, or the height is above it and the path is cut to one position that does
-- not link to the confirmed block, or is the path from the confirmed block to the block with the id, of
-- one position for each height between.
pub get_path-Answer :
    (id : String) (height : ℕ) (p : Pool) (path : List (Option ℕ))
    → IsValid p
    → height < 2 ^ 31
    → get_path id height p ≡ some path
    → ((height ≡ p.confirmed_height) × (path ≡ []))
      ⊎ ((d : ℕ) × (height ≡ p.confirmed_height + suc d) × Answer p id d path)
get_path-Answer id height p path valid low h = elim (dec_lt height p.confirmed_height) [
  | yes under ↦
      let i = pred_ℤ-to_int-sub64 height p.confirmed_height under valid.small in
      elim (deq_index-Answer id height p path valid h) [ inl (e, _) ↦ cc | inr (d, e, _) ↦ cc ]
  | no reached ↦ elim (dec_lt p.confirmed_height height) [
    | no same ↦
        let eq : height ≡ p.confirmed_height = omega arith in
        let i : deq_index p height ≡ negsuc 0 =
          rw eq (pred_ℤ-to_int_zero p.confirmed_height valid.small) in
        elim (deq_index-Answer id height p path valid h) [
          | inl (e, empty) ↦ inl (eq, empty)
          | inr (d, e, _) ↦ cc
        ]
    | yes above ↦
        let gap : sub64 height p.confirmed_height ≡ height - p.confirmed_height =
          sub64-eq-sub height p.confirmed_height (omega arith) (omega arith) in
        let i : deq_index p height ≡ pos (height - p.confirmed_height - 1) =
          rw gap (pred_ℤ-to_int (height - p.confirmed_height) (omega arith) (omega arith)) in
        elim (deq_index-Answer id height p path valid h) [
          | inl (e, _) ↦ cc
          | inr (d, e, a) ↦
              let same : height - p.confirmed_height - 1 ≡ d = cc in inr (d, (omega arith), a)
        ]
  ]
]
