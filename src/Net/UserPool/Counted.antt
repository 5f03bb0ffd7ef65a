-- ===== src/Net/UserPool/Counted.antt =====
-- What num_of_signers counts.
use gruut.Base.{
  ℕ, suc, ◌+◌, ◌<◌, ◌^◌, ◌-◌, ◌≤◌, ◌≡◌, refl, sym, ap, subst, ◌⊎◌, ◌∙◌, inl, inr, String, true,
  false, none, some, eq_iff, if◌then◌else◌, Bytes, at, erase, IsDistinct, count_if, one_if,
  at-insert_or_assign_self, at-erase, insert_or_assign-IsDistinct, erase-IsDistinct,
  count_if-insert_or_assign, count_if-erase, arith, Bool-cases, Option-cases,
}
use gruut.Base.Int.{pos, suc_ℤ, dec_int}
use gruut.Net.UserPool.{User, UserMode, UserPool, is_signer, new_user, push_user, erase_user}

-- How many signers the pool holds.
abbrev pub signers : UserPool → ℕ
signers pool = count_if is_signer pool.user_pool

-- No id has two entries, and the number is not below that of the signers, so not negative, and at most b.
abbrev pub IsCounted : ℕ → UserPool → Type 0
IsCounted b pool =
    IsDistinct pool.user_pool
    × ((n : ℕ) × (pool.num_of_signers ≡ pos n) × (signers pool ≤ n) × (n ≤ b))

pub push_user-IsCounted :
    (decode58 : String → String) (id : String) (key : Bytes) (pk : String) (mode : UserMode) (b : ℕ)
    (pool : UserPool)
    → IsCounted b pool
    → b + 1 < 2 ^ 31
    → IsCounted (b + 1) (push_user decode58 id key pk mode pool)
unfolding push_user
push_user-IsCounted decode58 id key pk mode b pool (d, (n, e, h, top)) room =
    let u = new_user decode58 id key pk mode in
    let c = count_if-insert_or_assign is_signer id u pool.user_pool in
    (
      insert_or_assign-IsDistinct id u pool.user_pool d,
      elim (Bool-cases (is_signer u)) [
        | inl s ↦ (suc n, rw (s, e) (ground arith), ground arith, omega arith)
        | inr s ↦ (n, rw (s, e) refl, ground arith, omega arith)
      ],
    )

abbrev without : String → User → UserPool → UserPool
without id u pool = record {
  num_of_signers = if is_signer u then dec_int pool.num_of_signers else pool.num_of_signers;
  user_pool = erase id pool.user_pool;
}

erase_user_found :
    (id : String) (u : User) (pool : UserPool)
    → at id pool.user_pool ≡ some u
    → erase_user id pool ≡ (true, without id u pool)
unfolding erase_user
erase_user_found id u pool f = rw (f, erase_user) refl

pub erase_user_cases :
    (id : String) (pool : UserPool)
    → ((at id pool.user_pool ≡ none) × (erase_user id pool ≡ (false, pool)))
      ⊎ ((u : User) × (at id pool.user_pool ≡ some u)
          × (erase_user id pool ≡ (true, without id u pool)))
unfolding erase_user
erase_user_cases id pool = elim (Option-cases (at id pool.user_pool)) [
  | inl absent ↦ inl (absent, rw (absent, erase_user) refl)
  | inr (u, f) ↦ inr (u, f, erase_user_found id u pool f)
]

without-IsCounted :
    (id : String) (u : User) (b : ℕ) (pool : UserPool)
    → at id pool.user_pool ≡ some u
    → IsCounted b pool
    → IsCounted b (without id u pool)
without-IsCounted id u b pool f (d, (n, e, h, top)) =
    let c = count_if-erase is_signer id pool.user_pool in
    let o : one_if is_signer (at id pool.user_pool) ≡ one_if is_signer (some u) = rw f refl in
    (
      erase-IsDistinct id pool.user_pool d,
      elim (Bool-cases (is_signer u)) [
        | inl s ↦ (n - 1, rw (s, e) (ground arith), ground arith, omega arith)
        | inr s ↦ (n, rw (s, e) refl, ground arith, top)
      ],
    )

pub erase_user-IsCounted :
    (id : String) (b : ℕ) (pool : UserPool) → IsCounted b pool → IsCounted b (erase_user id pool).1
erase_user-IsCounted id b pool h = elim (erase_user_cases id pool) [
  | inl (absent, e) ↦ subst (λ r. IsCounted b r.1) (sym e) h
  | inr (u, found, e) ↦ subst (λ r. IsCounted b r.1) (sym e) (without-IsCounted id u b pool found h)
]

-- A signer that has no entry joins twice and then leaves, in a pool where no id has two entries and whose
-- count is not below that of its signers and at most b, with b + 2 below 2 ^ 31: the pool has no entry
-- for it, but counts one signer more than before.
pub erase_user-push_push :
    (decode58 : String → String) (id : String) (key1 key2 : Bytes) (pk : String) (mode : UserMode)
    (b : ℕ) (pool : UserPool)
    → IsCounted b pool
    → b + 2 < 2 ^ 31
    → at id pool.user_pool ≡ none
    → is_signer (new_user decode58 id key1 pk mode) ≡ true
    → let twice = push_user decode58 id key2 pk mode (push_user decode58 id key1 pk mode pool) in
      let (erased, left) = erase_user id twice in
      (erased ≡ true)
      × (at id left.user_pool ≡ none)
      × (left.num_of_signers ≡ suc_ℤ pool.num_of_signers)
      × (signers left ≡ signers pool)
unfolding push_user
erase_user-push_push decode58 id key1 key2 pk mode b pool h room absent s =
    let u1 = new_user decode58 id key1 pk mode in
    let u2 = new_user decode58 id key2 pk mode in
    let once = push_user decode58 id key1 pk mode pool in
    let twice = push_user decode58 id key2 pk mode once in
    let s2 : is_signer u2 ≡ true = s in
    let there1 = at-insert_or_assign_self id u1 pool.user_pool in
    let there2 = at-insert_or_assign_self id u2 once.user_pool in
    let (n, e, _, top) = h.1 in
    let d1 = insert_or_assign-IsDistinct id u1 pool.user_pool h.0 in
    let d2 = insert_or_assign-IsDistinct id u2 once.user_pool d1 in
    let gone = at-erase id id twice.user_pool d2 in
    let count1 = count_if-insert_or_assign is_signer id u1 pool.user_pool in
    let count2 = count_if-insert_or_assign is_signer id u2 once.user_pool in
    let count3 = count_if-erase is_signer id twice.user_pool in
    let none1 = ap (one_if is_signer) absent in
    let one2 : one_if is_signer (at id once.user_pool) ≡ 1 =
      ap (one_if is_signer) there1 ∙ rw s refl in
    let one3 : one_if is_signer (at id twice.user_pool) ≡ 1 =
      ap (one_if is_signer) there2 ∙ rw s refl in
    let first : one_if is_signer (some u1) ≡ 1 = rw s refl in
    let second : one_if is_signer (some u2) ≡ 1 = rw s refl in
    rw (erase_user_found id u2 twice there2)
      (refl, gone ∙ rw ((eq_iff id id).1 refl) refl, rw (s, e) (ground arith), omega arith)
