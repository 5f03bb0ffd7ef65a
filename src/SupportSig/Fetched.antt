-- ===== src/SupportSig/Fetched.antt =====
-- What fetchAll returns and leaves.
use gruut.Base.{
  ℕ, ◌+◌, ◌≡◌, refl, sym, ap, ◌∙◌, inl, inr, String, Bool, true, false, ◌||◌, List, [], ◌∷◌, ◌++◌,
  map, str_eq, eq_iff, if◌then◌else◌, any-append, append_nil, Bool-cases, arith,
}
use gruut.SupportSig.{
  SupportSigInfo, SupportSigPool, has_id, add, Step, add_step, copy_step, clear_step, run,
  fetch_all,
}

abbrev pub adds : List SupportSigInfo → List Step
adds sigs = map add_step sigs

-- How many entries have the id.
abbrev pub entries : String → SupportSigPool → ℕ
entries id [] = 0
entries id (s ∷ pool) = (if str_eq s.id id then 1 else 0) + entries id pool

entries-snoc :
    (id : String) (pool : SupportSigPool) (s : SupportSigInfo)
    → entries id (pool ++ s ∷ []) ≡ entries id pool + (if str_eq s.id id then 1 else 0)
entries-snoc id [] s = omega arith
entries-snoc id (t ∷ pool) s = let e = entries-snoc id pool s in omega arith

has_id-entries :
    (id : String) (pool : SupportSigPool) → has_id id pool ≡ false → entries id pool ≡ 0
has_id-entries id [] h = refl
has_id-entries id (s ∷ pool) h = ground (arith, has_id-entries id pool)

entries-add :
    (id : String) (s : SupportSigInfo) (pool : SupportSigPool)
    → entries id pool ≡ (if has_id id pool then 1 else 0)
    → entries id (add s pool) ≡ (if str_eq s.id id || has_id id pool then 1 else 0)
unfolding add
entries-add id s pool h = elim (Bool-cases (has_id s.id pool)) [
  | inl e ↦ elim (Bool-cases (str_eq s.id id)) [
    | inl f ↦
        let same : s.id ≡ id = (eq_iff s.id id).0 f in
        let there : has_id id pool ≡ true = sym (ap (λ i. has_id i pool) same) ∙ e in
        rw (e, f) (h ∙ ap (λ b. if b then 1 else 0) there)
    | inr f ↦ rw (e, f) h
  ]
  | inr e ↦ elim (Bool-cases (str_eq s.id id)) [
    | inl f ↦
        let same : s.id ≡ id = (eq_iff s.id id).0 f in
        let absent : has_id id pool ≡ false = sym (ap (λ i. has_id i pool) same) ∙ e in
        let empty = has_id-entries id pool absent in
        let more = entries-snoc id pool s in rw (e, f) (ground arith)
    | inr f ↦ let more = entries-snoc id pool s in rw (e, f) (ground arith)
  ]
]

has_id-add :
    (id : String) (s : SupportSigInfo) (pool : SupportSigPool)
    → has_id id (add s pool) ≡ (str_eq s.id id || has_id id pool)
unfolding add
has_id-add id s pool = elim (Bool-cases (has_id s.id pool)) [
  | inl e ↦ elim (Bool-cases (str_eq s.id id)) [
    | inl f ↦
        let same : s.id ≡ id = (eq_iff s.id id).0 f in
        let there : has_id id pool ≡ true = sym (ap (λ i. has_id i pool) same) ∙ e in
        rw (e, f) there
    | inr f ↦ rw (e, f) refl
  ]
  | inr e ↦
      let a = any-append (λ (t : SupportSigInfo). str_eq t.id id) pool (s ∷ []) in
      rw e (ground arith)
]

or_swap : (a b c : Bool) → (b || (a || c)) ≡ ((a || b) || c)
or_swap true true c = refl
or_swap true false c = refl
or_swap false b c = refl

fetched_from :
    (id : String) (sigs : List SupportSigInfo) (pool : SupportSigPool)
    → entries id pool ≡ (if has_id id pool then 1 else 0)
    → (entries id (run (adds sigs ++ fetch_all) pool []).1
        ≡ (if has_id id sigs || has_id id pool then 1 else 0))
      × ((run (adds sigs ++ fetch_all) pool []).0 ≡ [])
unfolding run
fetched_from id [] pool h = (h, refl)
fetched_from id (s ∷ sigs) pool h =
    let present = has_id-add id s pool in
    let now : entries id (add s pool) ≡ (if has_id id (add s pool) then 1 else 0) =
      entries-add id s pool h ∙ ap (λ b. if b then 1 else 0) (sym present) in
    let rest = fetched_from id sigs (add s pool) now in
    (
      rest.0
          ∙ ap (λ b. if b then 1 else 0)
              (ap (λ b. has_id id sigs || b) present
                ∙ or_swap (str_eq s.id id) (has_id id sigs) (has_id id pool)),
      rest.1,
    )

-- After any signatures are added to an empty pool, a fetch that nothing interrupts returns one entry for
-- each id that they have and none for any other, and leaves the pool empty.
pub run-fetch_all :
    (id : String) (sigs : List SupportSigInfo)
    → (entries id (run (adds sigs ++ fetch_all) [] []).1 ≡ (if has_id id sigs then 1 else 0))
      × ((run (adds sigs ++ fetch_all) [] []).0 ≡ [])
run-fetch_all id sigs =
    let all = fetched_from id sigs [] refl in
    (all.0 ∙ ap (λ b. if b then 1 else 0) (or_none (has_id id sigs)), all.1)
  where
    or_none : (b : Bool) → (b || false) ≡ b
    or_none true = refl
    or_none false = refl

-- The pool after signatures are added: it has the ids that it had and theirs.
has_id-run-adds :
    (id : String) (sigs : List SupportSigInfo) (pool : SupportSigPool) (out : List SupportSigInfo)
    → has_id id (run (adds sigs) pool out).0 ≡ (has_id id sigs || has_id id pool)
unfolding run
has_id-run-adds id [] pool out = refl
has_id-run-adds id (s ∷ sigs) pool out =
    has_id-run-adds id sigs (add s pool) out
    ∙ ap (λ b. has_id id sigs || b) (has_id-add id s pool)
    ∙ or_swap (str_eq s.id id) (has_id id sigs) (has_id id pool)

-- The steps that follow some additions start from the pool that these leave.
run-append :
    (sigs : List SupportSigInfo) (steps : List Step) (pool : SupportSigPool)
    (out : List SupportSigInfo)
    → run (adds sigs ++ steps) pool out ≡ run steps (run (adds sigs) pool out).0 out
unfolding run
run-append [] steps pool out = refl
run-append (s ∷ sigs) steps pool out = run-append sigs steps (add s pool) out

-- A signature of an id that is not in the pool, added between the two steps of a fetch, whatever else is
-- added there: it is taken into the pool, but the fetch does not return it, the pool has no entry of
-- its id after the fetch, and so a second fetch returns nothing at all; while the same additions before
-- the fetch make it return an entry of the id.
pub run-lost :
    (id : String) (sigs : List SupportSigInfo) (pool : SupportSigPool)
    → has_id id sigs ≡ true
    → has_id id pool ≡ false
    → (has_id id (run (copy_step ∷ adds sigs) pool []).0 ≡ true)
      × (has_id id (run (copy_step ∷ adds sigs ++ clear_step ∷ []) pool []).1 ≡ false)
      × (run (copy_step ∷ adds sigs ++ clear_step ∷ fetch_all) pool [] ≡ ([], pool))
      × (has_id id (run (adds sigs ++ fetch_all) pool []).1 ≡ true)
unfolding run
run-lost id sigs pool here absent = (
  has_id-run-adds id sigs pool pool ∙ rw here refl,
  ap (λ r. has_id id r.1) (run-append sigs (clear_step ∷ []) pool pool) ∙ absent,
  run-append sigs (clear_step ∷ fetch_all) pool pool ∙ ap (λ out. ([], out)) (append_nil pool),
  ap (λ r. has_id id r.1) (run-append sigs fetch_all pool [])
      ∙ has_id-run-adds id sigs pool []
      ∙ rw here refl,
)
