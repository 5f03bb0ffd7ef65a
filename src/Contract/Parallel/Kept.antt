-- ===== src/Contract/Parallel/Kept.antt =====
-- How often a transaction stands in the bins.
use gruut.Base.{
  ℕ, zero, suc, ◌+◌, ◌≤◌, ◌<◌, ◌≡◌, refl, ap, ◌∙◌, ◌⊎◌, inl, inr, String, Bool, Option, none, some,
  List, [], ◌∷◌, ◌++◌, map, arith, ltb, if◌then◌else◌, length, get_or, modify, find_index-lt-length,
  Bool-cases, length-map, length-modify,
}
use gruut.Contract.Parallel.{
  Tx, Group, no_group, user_related_bin, recv_related_bin, push, copy, clear_users, clear_rest,
  join, place, group_from, min_bin_from, distribute, parallelize,
}

-- The transactions of a list that pass a test.
abbrev pub count : (Tx → Bool) → List Tx → ℕ
count f [] = 0
count f (t ∷ ts) = (if f t then 1 else 0) + count f ts

abbrev pub sum : List ℕ → ℕ
sum [] = 0
sum (n ∷ ns) = n + sum ns

abbrev pub count_all : (Tx → Bool) → List (List Tx) → ℕ
count_all f bins = sum (map (count f) bins)

abbrev weight : (Tx → Bool) → Group → ℕ
weight f g = count f g.txs

abbrev held : (Tx → Bool) → List Group → ℕ
held f gs = sum (map (weight f) gs)

count-append : (f : Tx → Bool) (a b : List Tx) → count f (a ++ b) ≡ count f a + count f b
count-append f [] b = omega arith
count-append f (t ∷ a) b = let e = count-append f a b in omega arith

pub map-modify {ℓ} :
    {A : Type ℓ} (w : A → ℕ) (i : ℕ) (g : A → A) (h : ℕ → ℕ) (xs : List A)
    → ((x : A) → w (g x) ≡ h (w x))
    → map w (modify i g xs) ≡ modify i h (map w xs)
map-modify w i g h [] e = refl
map-modify w zero g h (x ∷ xs) e = ap (λ n. n ∷ map w xs) (e x)
map-modify w (suc i) g h (x ∷ xs) e = ap (λ ns. w x ∷ ns) (map-modify w i g h xs e)

pub modify_id : (i : ℕ) (ns : List ℕ) → modify i (λ n. n) ns ≡ ns
modify_id i [] = refl
modify_id zero (n ∷ ns) = refl
modify_id (suc i) (n ∷ ns) = ap (λ ms. n ∷ ms) (modify_id i ns)

modify_twice :
    (i k : ℕ) (h : ℕ → ℕ) (ns : List ℕ) → modify i (λ n. k) (modify i h ns) ≡ modify i (λ n. k) ns
modify_twice i k h [] = refl
modify_twice zero k h (n ∷ ns) = refl
modify_twice (suc i) k h (n ∷ ns) = ap (λ ms. n ∷ ms) (modify_twice i k h ns)

sum-modify_const : (i k : ℕ) (ns : List ℕ) → sum (modify i (λ n. k) ns) ≤ sum ns + k
sum-modify_const i k [] = omega arith
sum-modify_const zero k (n ∷ ns) = omega arith
sum-modify_const (suc i) k (n ∷ ns) = let e = sum-modify_const i k ns in omega arith

sum-modify_add :
    (i k : ℕ) (ns : List ℕ) → i < length ns → sum (modify i (λ n. n + k) ns) ≡ sum ns + k
sum-modify_add i k [] h = omega arith
sum-modify_add zero k (n ∷ ns) h = omega arith
sum-modify_add (suc i) k (n ∷ ns) h = let e = sum-modify_add i k ns (omega arith) in omega arith

pub sum-append : (a b : List ℕ) → sum (a ++ b) ≡ sum a + sum b
sum-append [] b = omega arith
sum-append (n ∷ a) b = let e = sum-append a b in omega arith

pub map-snoc {ℓ} :
    {A : Type ℓ} (w : A → ℕ) (xs : List A) (x : A) → map w (xs ++ x ∷ []) ≡ map w xs ++ w x ∷ []
map-snoc w [] x = refl
map-snoc w (y ∷ xs) x = ap (λ ns. w y ∷ ns) (map-snoc w xs x)

abbrev one : (f : Tx → Bool) → Tx → ℕ
one f t = if f t then 1 else 0

held-join :
    (f : Tx → Bool) (u r : ℕ) (t : Tx) (gs : List Group)
    → held f (join u r t gs) ≤ held f gs + one f t
held-join f u r t gs =
    let copied : map (weight f) (modify u (copy (get_or gs r no_group)) gs)
        ≡ modify u (λ n. n + weight f (get_or gs r no_group)) (map (weight f) gs) =
      map-modify (weight f) u _ _ gs (λ g. count-append f g.txs _) in
    let weights : map (weight f) (join u r t gs) ≡ modify u (λ n. one f t) (map (weight f) gs) =
      map-modify (weight f) u (λ g. push t (clear_rest g)) (λ n. one f t) _ (λ g. omega arith)
      ∙ ap (modify u (λ n. one f t))
          (map-modify (weight f) r clear_users (λ n. n) _ (λ g. refl) ∙ modify_id r _ ∙ copied)
      ∙ modify_twice u (one f t) _ (map (weight f) gs) in
    rw weights (sum-modify_const u (one f t) (map (weight f) gs))

held-push :
    (f : Tx → Bool) (i : ℕ) (t : Tx) (gs : List Group)
    → i < length gs
    → held f (modify i (push t) gs) ≡ held f gs + one f t
held-push f i t gs h =
    let weights : map (weight f) (modify i (push t) gs)
        ≡ modify i (λ n. n + one f t) (map (weight f) gs) =
      map-modify (weight f) i (push t) _ gs
        (λ g. let e = count-append f g.txs (t ∷ []) in omega arith) in
    rw weights (sum-modify_add i (one f t) (map (weight f) gs) (rw (length-map (weight f) gs) h))

held-new :
    (f : Tx → Bool) (t : Tx) (gs : List Group)
    → held f (gs ++ push t no_group ∷ []) ≡ held f gs + one f t
held-new f t gs =
    let e = sum-append (map (weight f) gs) (weight f (push t no_group) ∷ []) in
    rw (map-snoc (weight f) gs (push t no_group)) (omega arith)

-- The groups in which a transaction is placed, as places of the list.
abbrev Within : List Group → Option ℕ → Type 0
Within gs o = (i : ℕ) → o ≡ some i → i < length gs

-- Not both its user and its receiver are in a group.
abbrev pub IsSingle : Option ℕ → Option ℕ → Type 0
IsSingle u r = (u ≡ none) ⊎ (r ≡ none)

held-place :
    (f : Tx → Bool) (u r : Option ℕ) (t : Tx) (gs : List Group)
    → Within gs u
    → Within gs r
    → (held f (place u r t gs) ≤ held f gs + one f t)
      × (IsSingle u r → held f (place u r t gs) ≡ held f gs + one f t)
held-place f (some u) (some r) t gs a b =
    (held-join f u r t gs, λ single. elim single [ inl e ↦ cc | inr e ↦ cc ])
held-place f (some u) none t gs a b = let e = held-push f u t gs (a u refl) in (omega arith, λ x. e)
held-place f none (some r) t gs a b = let e = held-push f r t gs (b r refl) in (omega arith, λ x. e)
held-place f none none t gs a b = let e = held-new f t gs in (omega arith, λ x. e)

Within-user : (user : String) (gs : List Group) → Within gs (user_related_bin user gs)
Within-user user gs i e = find_index-lt-length _ gs i e

Within-recv : (receiver : String) (gs : List Group) → Within gs (recv_related_bin receiver gs)
Within-recv receiver gs i e = find_index-lt-length _ gs i e

-- No transaction of the list joins two groups, nor finds both its user and its receiver in one.
abbrev pub HasNoJoin : List Tx → List Group → Type 0
HasNoJoin [] gs = Unit
HasNoJoin (t ∷ ts) gs =
    IsSingle (user_related_bin t.user gs) (recv_related_bin t.receiver gs)
    × HasNoJoin ts (place (user_related_bin t.user gs) (recv_related_bin t.receiver gs) t gs)

held-group_from :
    (f : Tx → Bool) (ts : List Tx) (gs : List Group)
    → (held f (group_from ts gs) ≤ held f gs + count f ts)
      × (HasNoJoin ts gs → held f (group_from ts gs) ≡ held f gs + count f ts)
unfolding group_from
held-group_from f [] gs = (omega arith, λ x. omega arith)
held-group_from f (t ∷ ts) gs =
    let u = user_related_bin t.user gs in
    let r = recv_related_bin t.receiver gs in
    let (le, eq) = held-place f u r t gs (Within-user t.user gs) (Within-recv t.receiver gs) in
    let (les, eqs) = held-group_from f ts (place u r t gs) in
    (omega arith, λ x. let e = eq x.0 in let es = eqs x.1 in omega arith)

min_bin_from-lt :
    (j least best : ℕ) (bs : List (List Tx))
    → best < j + length bs
    → min_bin_from j least best bs < j + length bs
unfolding min_bin_from
min_bin_from-lt j least best [] h = h
min_bin_from-lt j least best (b ∷ bs) h = elim (Bool-cases (ltb (length b) least)) [
  | inl e ↦ let k = min_bin_from-lt (suc j) (length b) j bs (omega arith) in rw e (omega arith)
  | inr e ↦ elim (Bool-cases (ltb best (suc j + length bs))) [
    | inl l ↦ let k = min_bin_from-lt (suc j) least best bs (omega arith) in rw e (omega arith)
    | inr l ↦ let k = min_bin_from-lt (suc j) least best bs (omega arith) in rw e (omega arith)
  ]
]

count_all-distribute :
    (f : Tx → Bool) (n : ℕ) (gs : List Group) (bins : List (List Tx))
    → 0 < length bins
    → count_all f (distribute n gs bins) ≡ count_all f bins + held f gs
unfolding distribute
count_all-distribute f n [] bins h = omega arith
count_all-distribute f n (g ∷ gs) bins h =
    let i = min_bin_from 0 n 0 bins in
    let below = min_bin_from-lt 0 n 0 bins (omega arith) in
    let lt : i < length bins = omega arith in
    let weights : map (count f) (modify i (λ b. b ++ g.txs) bins)
        ≡ modify i (λ k. k + count f g.txs) (map (count f) bins) =
      map-modify (count f) i _ _ bins (λ b. count-append f b g.txs) in
    let added =
      sum-modify_add i (count f g.txs) (map (count f) bins) (rw (length-map (count f) bins) lt) in
    let rest =
      count_all-distribute f n gs (modify i (λ b. b ++ g.txs) bins)
        (rw (length-modify i (λ b. b ++ g.txs) bins) h) in
    rest ∙ (rw weights (omega arith))

-- Whatever the test f, the bins hold no more transactions that pass it than the block does, so that
-- none is added or doubled; and where no transaction finds both its user and its receiver in a group,
-- they hold just as many, so that none is lost.
pub count_all-parallelize :
    (f : Tx → Bool) (block : List Tx)
    → (count_all f (parallelize block) ≤ count f block)
      × (HasNoJoin block [] → count_all f (parallelize block) ≡ count f block)
unfolding parallelize
count_all-parallelize f block =
    let e =
      count_all-distribute f (length block) (group_from block []) ([] ∷ [] ∷ [] ∷ [] ∷ [])
        (omega arith) in
    let (le, eq) = held-group_from f block [] in (omega arith, λ x. let g = eq x in omega arith)
