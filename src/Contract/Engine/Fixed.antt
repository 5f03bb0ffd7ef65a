-- ===== src/Contract/Engine/Fixed.antt =====
-- What the cache of contracts answers.
use gruut.Base.{
  ◌≡◌, refl, sym, ap, ◌∙◌, inl, inr, String, none, some, List, [], ◌∷◌, str_eq, eq_iff, at,
  insert_or_assign, at-insert_or_assign, at-insert_or_assign_self, Bool-cases, Option-cases,
}
use gruut.Contract.Engine.{ContractCache, ReadContract, get_contract, non_empty}

-- Look-ups, each with what the storage has at its time.
unfoldable pub after : List (ReadContract × String) → ContractCache → ContractCache
after [] cache = cache
after ((read, cid) ∷ calls) cache = after calls (get_contract read cid cache).1

get_contract_found :
    (read : ReadContract) (cid doc : String) (cache : ContractCache)
    → at cid cache ≡ some doc
    → get_contract read cid cache ≡ (non_empty doc, cache)
unfolding get_contract
get_contract_found read cid doc cache h = rw (h, get_contract) refl

-- What a look-up answers is what it leaves in the cache.
get_contract-kept :
    (read : ReadContract) (cid : String) (cache : ContractCache)
    → (doc : String) × (at cid (get_contract read cid cache).1 ≡ some doc)
      × ((get_contract read cid cache).0 ≡ non_empty doc)
unfolding get_contract
get_contract-kept read cid cache = elim (Option-cases (at cid cache)) [
  | inl e ↦ elim (Option-cases (read cid)) [
    | inl f ↦ ("", rw (e, f) (at-insert_or_assign_self cid "" cache), rw (e, f) refl)
    | inr (doc, f) ↦ (doc, rw (e, f) (at-insert_or_assign_self cid doc cache), rw (e, f) refl)
  ]
  | inr (doc, e) ↦ (doc, rw e e, rw e refl)
]

-- What is in the cache stays.
get_contract-keeps :
    (read : ReadContract) (other cid doc : String) (cache : ContractCache)
    → at cid cache ≡ some doc
    → at cid (get_contract read other cache).1 ≡ some doc
unfolding get_contract
get_contract-keeps read other cid doc cache h = elim (Option-cases (at other cache)) [
  | inl e ↦ elim (Option-cases (read other)) [
    | inl f ↦ rw (e, f) (put "" e)
    | inr (new, f) ↦ rw (e, f) (put new e)
  ]
  | inr (old, e) ↦ rw e h
]
  where
    put :
        (new : String)
        → at other cache ≡ none
        → at cid (insert_or_assign other new cache) ≡ some doc
    put new absent = elim (Bool-cases (str_eq other cid)) [
      | inl f ↦
          let same : other ≡ cid = (eq_iff other cid).0 f in
          let there : at cid cache ≡ none = ap (λ c. at c cache) (sym same) ∙ absent in cc
      | inr f ↦ at-insert_or_assign cid other new cache ∙ rw f h
    ]

after-keeps :
    (calls : List (ReadContract × String)) (cid doc : String) (cache : ContractCache)
    → at cid cache ≡ some doc
    → at cid (after calls cache) ≡ some doc
unfolding after
after-keeps [] cid doc cache h = h
after-keeps ((read, other) ∷ calls) cid doc cache h =
    after-keeps calls cid doc (get_contract read other cache).1
      (get_contract-keeps read other cid doc cache h)

-- The answer to the first look-up of an id is the answer to every later one, whatever the storage has
-- by then: an id that it did not have, or had with an empty text, is not found any more.
get_contract-fixed :
    (read later : ReadContract) (cid : String) (calls : List (ReadContract × String))
    (cache : ContractCache)
    → (get_contract later cid (after calls (get_contract read cid cache).1)).0
      ≡ (get_contract read cid cache).0
get_contract-fixed read later cid calls cache =
    let (doc, there, answer) = get_contract-kept read cid cache in
    let still = after-keeps calls cid doc (get_contract read cid cache).1 there in
    ap (λ r. r.0)
      (get_contract_found later cid doc (after calls (get_contract read cid cache).1) still)
    ∙ sym answer
