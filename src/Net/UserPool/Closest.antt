-- ===== src/Net/UserPool/Closest.antt =====
-- Which signers are closest.
use gruut.Base.{
  ℕ, zero, suc, ◌+◌, ◌≤◌, ◌≡◌, refl, ap, ◌∙◌, inl, inr, String, Bool, List, [], ◌∷◌, ltb, length,
  if◌then◌else◌, All, All-imp, arith, Bool-cases, Assoc, count_if,
}
use gruut.Net.Bitset.{Bitset, resize}
use gruut.Net.UserPool.{
  Candidate, User, UserPool, is_signer, signers_of, dist, insert_sorted, sort_signers, no_signer,
  get_close_signers,
}
use gruut.Net.UserPool.Counted.{signers}

abbrev pub tally : (Candidate → Bool) → List Candidate → ℕ
tally p [] = 0
tally p (c ∷ cs) = (if p c then 1 else 0) + tally p cs

-- Each candidate is at most as far as all that follow.
abbrev pub IsSorted : Bitset → List Candidate → Type 0
IsSorted optimal [] = Unit
IsSorted optimal (c ∷ cs) = All (λ d. dist optimal c ≤ dist optimal d) cs × IsSorted optimal cs

tally-insert_sorted :
    (p : Candidate → Bool) (optimal : Bitset) (c : Candidate) (cs : List Candidate)
    → tally p (insert_sorted optimal c cs) ≡ (if p c then 1 else 0) + tally p cs
tally-insert_sorted p optimal c [] = refl
tally-insert_sorted p optimal c (d ∷ ds) =
    let rest = tally-insert_sorted p optimal c ds in
    elim (Bool-cases (ltb (dist optimal d) (dist optimal c))) [
      | inl e ↦ rw e (omega (arith, rest))
      | inr e ↦ rw e refl
    ]

tally-sort_signers :
    (p : Candidate → Bool) (optimal : Bitset) (cs : List Candidate)
    → tally p (sort_signers optimal cs) ≡ tally p cs
tally-sort_signers p optimal [] = refl
tally-sort_signers p optimal (c ∷ cs) =
    tally-insert_sorted p optimal c (sort_signers optimal cs)
    ∙ ap (λ n. (if p c then 1 else 0) + n) (tally-sort_signers p optimal cs)

insert_sorted-All {ℓ} :
    (P : Candidate → Type ℓ) (optimal : Bitset) (c : Candidate) (cs : List Candidate)
    → P c
    → All P cs
    → All P (insert_sorted optimal c cs)
insert_sorted-All P optimal c [] h a = (h, tt)
insert_sorted-All P optimal c (d ∷ ds) h a =
    elim (Bool-cases (ltb (dist optimal d) (dist optimal c))) [
      | inl e ↦ rw e (a.0, insert_sorted-All P optimal c ds h a.1)
      | inr e ↦ rw e (h, a)
    ]

insert_sorted-IsSorted :
    (optimal : Bitset) (c : Candidate) (cs : List Candidate)
    → IsSorted optimal cs
    → IsSorted optimal (insert_sorted optimal c cs)
insert_sorted-IsSorted optimal c [] s = (tt, tt)
insert_sorted-IsSorted optimal c (d ∷ ds) s =
    elim (Bool-cases (ltb (dist optimal d) (dist optimal c))) [
      | inl e ↦ rw e (
        insert_sorted-All (λ x. dist optimal d ≤ dist optimal x) optimal c ds (ground arith) s.0,
        insert_sorted-IsSorted optimal c ds s.1,
      )
      | inr e ↦
          let near : dist optimal c ≤ dist optimal d = ground arith in
          rw e (
            (
              near,
              All-imp (λ x. dist optimal d ≤ dist optimal x) (λ x. dist optimal c ≤ dist optimal x)
                  ds (λ x h. omega arith) s.0,
            ),
            s,
          )
    ]

sort_signers-IsSorted :
    (optimal : Bitset) (cs : List Candidate) → IsSorted optimal (sort_signers optimal cs)
sort_signers-IsSorted optimal [] = tt
sort_signers-IsSorted optimal (c ∷ cs) =
    insert_sorted-IsSorted optimal c (sort_signers optimal cs) (sort_signers-IsSorted optimal cs)

length-resize {ℓ} : {A : Type ℓ} (n : ℕ) (d : A) (xs : List A) → length (resize n d xs) ≡ n
length-resize zero d xs = refl
length-resize (suc n) d [] = ap suc (length-resize n d [])
length-resize (suc n) d (x ∷ xs) = ap suc (length-resize n d xs)

length-signers_of :
    (decode58 : String → String) (m : Assoc User)
    → length (signers_of decode58 m) ≡ count_if is_signer m
unfolding count_if
length-signers_of decode58 [] = refl
length-signers_of decode58 ((k, u) ∷ m) = ground (arith, length-signers_of decode58 m)

-- The result has `size` entries, whatever the size: it is cut from, or filled up with empty users behind, a list that is sorted by
-- the distance to the optimal signer and has just the signers of the pool.
pub get_close_signers-IsSorted :
    (decode58 : String → String) (optimal : Bitset) (size : ℕ) (pool : UserPool)
    → (length (get_close_signers decode58 optimal size pool) ≡ size)
      × ((cs : List Candidate) × (get_close_signers decode58 optimal size pool
            ≡ resize size no_signer cs)
          × IsSorted optimal cs
          × ((p : Candidate → Bool) → tally p cs ≡ tally p (signers_of decode58 pool.user_pool))
          × (length (signers_of decode58 pool.user_pool) ≡ signers pool))
unfolding get_close_signers
get_close_signers-IsSorted decode58 optimal size pool =
    let all_signers = signers_of decode58 pool.user_pool in
    let cs = sort_signers optimal all_signers in
    (
      length-resize size no_signer cs,
      (
        cs,
        refl,
        sort_signers-IsSorted optimal all_signers,
        λ p. tally-sort_signers p optimal all_signers,
        length-signers_of decode58 pool.user_pool,
      ),
    )
