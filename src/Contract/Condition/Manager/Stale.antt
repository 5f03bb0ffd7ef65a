-- ===== src/Contract/Condition/Manager/Stale.antt =====
-- A condition in whose attributes no variable stands is evaluated once only.
use gruut.Base.{
  Bytes, bytes_eq_refl, String, Bool, true, false, some, List, [], ◌∷◌, map, str_eq, eq_iff, ◌≡◌,
  refl, ap,
}
use gruut.Contract.Text.{empty}
use gruut.Contract.Datamap.{Datamap}
use gruut.Contract.Document.{Element, attribute}
use gruut.Contract.Condition.Services.{Services}
use gruut.Contract.Condition.Handler.{evalue}
use gruut.Contract.Condition.Manager.{
  ConditionManager, new_manager, find, insert_new, keyword_search, keywords_of, note_keywords,
  look_up, evalue_cached, answers, kv_string,
}

str_eq_refl : (s : String) → str_eq s s ≡ true
str_eq_refl s = (eq_iff s s).1 refl

-- The manager knows that the id has no keywords, and keeps the result r of it.
record IsStuck (sha256 : String → Bytes) (id : String) (r : Bool) (c : ConditionManager)
    : Type 0 where
  keywords : find c.keyword_map id ≡ some []
  result : find c.result_cache id ≡ some (r, sha256 "")

module _ (s : Services) (sha256 : String → Bytes) (e : Element)
    (named : empty (attribute e "id") ≡ false) where
  look_up_kept :
      (id : String) (m : Datamap) (r : Bool) (h : Bytes) (c : ConditionManager)
      → find c.result_cache id ≡ some (r, h)
      → look_up s sha256 id e m h c ≡ (r, c)
  unfolding look_up
  look_up_kept id m r h c found = rw (look_up, found, bytes_eq_refl h) refl

  evalue_cached-IsStuck :
      (m : Datamap) (r : Bool) (c : ConditionManager)
      → IsStuck sha256 (attribute e "id") r c
      → evalue_cached s sha256 e m c ≡ (r, c)
  unfolding evalue_cached kv_string
  evalue_cached-IsStuck m r c k =
      let kws : keywords_of s sha256 (attribute e "id") e c ≡ [] =
        rw (keywords_of, k.keywords) refl in
      let same : note_keywords s sha256 (attribute e "id") e c ≡ c =
        rw (note_keywords, insert_new, k.keywords) refl in
      rw (named, kws, same) (look_up_kept (attribute e "id") m r (sha256 "") c k.result)

  answers-IsStuck :
      (ms : List Datamap) (r : Bool) (c : ConditionManager)
      → IsStuck sha256 (attribute e "id") r c
      → answers s sha256 (map (λ m. (e, m)) ms) c ≡ map (λ m. r) ms
  unfolding answers
  answers-IsStuck [] r c k = refl
  answers-IsStuck (m ∷ ms) r c k =
      rw (evalue_cached-IsStuck m r c k) (ap (λ rs. r ∷ rs) (answers-IsStuck ms r c k))

  first-IsStuck :
      (m : Datamap)
      → keyword_search e [] ≡ []
      → ((evalue_cached s sha256 e m new_manager).0 ≡ evalue s m e)
        × IsStuck sha256
            (attribute e "id")
            (evalue s m e)
            (evalue_cached s sha256 e m new_manager).1
  unfolding evalue_cached look_up find kv_string
  first-IsStuck m none_found =
      rw (named, none_found)
        (
          refl,
          record {
            keywords = rw (str_eq_refl (attribute e "id")) refl;
            result = rw (str_eq_refl (attribute e "id")) refl;
          },
        )

-- Where no variable stands in the attributes that are searched for keywords, a new manager evaluates a
-- condition with an id at the first call, and gives that result at every later call, whatever the data
-- are by then.
pub answers-stale :
    (s : Services) (sha256 : String → Bytes) (e : Element)
    → empty (attribute e "id") ≡ false
    → keyword_search e [] ≡ []
    → (m : Datamap) (ms : List Datamap)
    → answers s sha256 (map (λ d. (e, d)) (m ∷ ms)) new_manager ≡ map (λ d. evalue s m e) (m ∷ ms)
unfolding answers
answers-stale s sha256 e named none_found m ms =
    let (value, stuck) = first-IsStuck s sha256 e named m none_found in
    let rest = answers-IsStuck s sha256 e named ms _ _ stuck in cc
