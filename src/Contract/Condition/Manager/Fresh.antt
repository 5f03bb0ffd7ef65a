-- ===== src/Contract/Condition/Manager/Fresh.antt =====
-- The kept results are those that the handler gives, where a condition depends on its keywords only.
use gruut.Base.{Bytes, String, Bool, true, some, List, [], if◌then◌else◌, ◌≡◌}
use gruut.Contract.Text.{empty}
use gruut.Contract.Datamap.{Datamap}
use gruut.Contract.Document.{Element, attribute}
use gruut.Contract.Condition.Services.{Services}
use gruut.Contract.Condition.Handler.{evalue}
use gruut.Contract.Condition.Manager.{ConditionManager, find, keyword_search, get_hash_kv}

-- What the handler says, without a manager; a condition with no id counts as met.
abbrev pub direct : Services → Element × Datamap → Bool
direct s (e, m) = if empty (attribute e "id") then true else evalue s m e

-- The results and keywords that a manager keeps are those of the documents that `doc` gives by id.
record IsKept (s : Services) (sha256 : String → Bytes) (doc : String → Element)
    (c : ConditionManager) : Type 0 where
  keywords :
      (id : String) (kws : List String)
      → find c.keyword_map id ≡ some kws
      → kws ≡ keyword_search (doc id) []
  results :
      (id : String) (x : Bool × Bytes)
      → find c.result_cache id ≡ some x
      → (m : Datamap) × (x.0 ≡ evalue s m (doc id))
        × (x.1 ≡ get_hash_kv s sha256 (keyword_search (doc id) []) m)
