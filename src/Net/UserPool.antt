-- ===== src/Net/UserPool.antt =====
-- The users that a node serves: class UserPool of
-- src/plugins/net_plugin/include/user_pool_manager.hpp. The order in which the map gives its entries is
-- the list's.
pub mod Counted
pub mod Closest
use gruut.Base.{
  ℕ, String, Bool, true, false, Option, none, some, List, [], ◌∷◌, ltb, leb, if◌then◌else◌, Bytes,
  Assoc, at, insert_or_assign, erase,
}
use gruut.Net.Bitset.{Bitset, resize, falses, xor_count}
use gruut.Net.IdBits.{id_to_bitset}
use gruut.Base.Int.{ℤ, pos, negsuc, inc_int, dec_int}

pub data UserMode : Type 0 where
  user_only signer_only all : UserMode

pub record User : Type 0 where
  pub user_id : String
  pub pk : String
  pub mode : UserMode
  pub hmac_key : Bytes

-- mode != UserMode::USER_ONLY
abbrev pub is_signer : User → Bool
is_signer u = elim u.mode [ user_only ↦ false | signer_only ↦ true | all ↦ true ]

pub record UserPool : Type 0 where
  pub num_of_signers : ℤ
  pub user_pool : Assoc User

abbrev pub empty_pool : UserPool
empty_pool = record { num_of_signers = pos 0; user_pool = [] }

abbrev pub max_signer : ℕ
max_signer = 200

abbrev pub new_user : (String → String) → String → Bytes → String → UserMode → User
new_user decode58 b58_user_id hmac_key pk mode = record {
  user_id = decode58 b58_user_id;
  pk = pk;
  mode = mode;
  hmac_key = hmac_key;
}

-- decodeBase<58> is `decode58`.
unfoldable pub push_user :
    (String → String) → String → Bytes → String → UserMode → UserPool → UserPool
push_user decode58 b58_user_id hmac_key pk mode pool =
    let u = new_user decode58 b58_user_id hmac_key pk mode in
    record {
      num_of_signers = if is_signer u then inc_int (pool.num_of_signers) else pool.num_of_signers;
      user_pool = insert_or_assign b58_user_id u pool.user_pool;
    }

unfoldable pub erase_user : String → UserPool → Bool × UserPool
erase_user b58_user_id pool = elim (at b58_user_id pool.user_pool) [
  | none ↦ (false, pool)
  | some u ↦ (
    true,
    record {
      num_of_signers = if is_signer u then dec_int (pool.num_of_signers) else pool.num_of_signers;
      user_pool = erase b58_user_id pool.user_pool;
    },
  )
]

unfoldable pub get_hmac_key : String → UserPool → Option Bytes
get_hmac_key b58_user_id pool = elim (at b58_user_id pool.user_pool) [
  | none ↦ none
  | some u ↦ some u.hmac_key
]

-- MAX_SIGNER >= num_of_signers
unfoldable pub full : UserPool → Bool
full pool = elim pool.num_of_signers [ pos n ↦ leb n max_signer | negsuc n ↦ true ]

abbrev pub Candidate : Type 0
Candidate = User × Bitset

abbrev pub signers_of : (String → String) → Assoc User → List Candidate
signers_of decode58 [] = []
signers_of decode58 ((k, u) ∷ m) =
    let rest = signers_of decode58 m in
    if is_signer u then (u, id_to_bitset (decode58 u.user_id)) ∷ rest else rest

abbrev pub dist : Bitset → Candidate → ℕ
dist optimal c = xor_count optimal c.1

abbrev pub insert_sorted : Bitset → Candidate → List Candidate → List Candidate
insert_sorted optimal c [] = c ∷ []
insert_sorted optimal c (d ∷ ds) =
    let rest = insert_sorted optimal c ds in
    if ltb (dist optimal d) (dist optimal c) then d ∷ rest else c ∷ d ∷ ds

-- std::sort by distance; candidates at one distance keep their order here.
abbrev pub sort_signers : Bitset → List Candidate → List Candidate
sort_signers optimal [] = []
sort_signers optimal (c ∷ cs) = insert_sorted optimal c (sort_signers optimal cs)

-- What resize fills up with: an empty user, and no bit set.
abbrev pub no_signer : Candidate
no_signer = (record { user_id = ""; pk = ""; mode = user_only; hmac_key = [] }, falses 256)

unfoldable pub get_close_signers : (String → String) → Bitset → ℕ → UserPool → List Candidate
get_close_signers decode58 optimal size pool =
    resize size no_signer (sort_signers optimal (signers_of decode58 pool.user_pool))
