-- ===== src/Contract/Parallel/Apart.antt =====
-- Which bins have a transaction of a user, or to a receiver.
use gruut.Base.{
  ℕ, zero, suc, ◌+◌, ◌≤◌, ◌≡◌, refl, sym, ap, subst, ◌∙◌, inl, inr, String, Bool, true, false,
  Option, none, some, List, [], ◌∷◌, ◌++◌, map, arith, if◌then◌else◌, length, get_elem?, modify,
  find_index, find_index_found, any, any-append, All, All-modify, All-append, All-imp, Bool-cases,
  str_eq, eq_iff,
}
use gruut.Contract.Parallel.{
  Tx, Group, no_group, user_related_bin, recv_related_bin, push, place, group_from, min_bin_from,
  distribute, parallelize,
}
use gruut.Contract.Parallel.Kept.{
  HasNoJoin, IsSingle, sum, map-modify, modify_id, sum-append, map-snoc,
}

abbrev has : String → List String → ℕ
has x ws = if any (λ w. str_eq w x) ws then 1 else 0

has-snoc_other :
    (x s : String) (ws : List String) → str_eq s x ≡ false → has x (ws ++ s ∷ []) ≡ has x ws
has-snoc_other x s ws h = let e = any-append (λ w. str_eq w x) ws (s ∷ []) in ground arith

has-snoc_same :
    (s : String) (ws : List String)
    → any (λ w. str_eq w s) ws ≡ true
    → has s (ws ++ s ∷ []) ≡ has s ws
has-snoc_same s ws h = let e = any-append (λ w. str_eq w s) ws (s ∷ []) in ground arith

map-modify_at {ℓ} :
    {A : Type ℓ} (w : A → ℕ) (h : A → A) (xs : List A) (i : ℕ) (a : A)
    → get_elem? xs i ≡ some a
    → w (h a) ≡ w a
    → map w (modify i h xs) ≡ map w xs
map-modify_at w h [] i a at e = refl
map-modify_at w h (x ∷ xs) zero a at e =
    let same : x ≡ a = cc in ap (λ n. n ∷ map w xs) (subst (λ y. w (h y) ≡ w y) (sym same) e)
map-modify_at w h (x ∷ xs) (suc i) a at e = ap (λ ns. w x ∷ ns) (map-modify_at w h xs i a at e)

none_found {ℓ} :
    {A : Type ℓ} (p : A → Bool) (xs : List A)
    → find_index p xs ≡ none
    → sum (map (λ x. if p x then 1 else 0) xs) ≡ 0
none_found p [] h = refl
none_found p (x ∷ xs) h = ground (arith, none_found p xs)

sum-modify_le {ℓ} :
    {A : Type ℓ} (w : A → ℕ) (h : A → A) (xs : List A) (i k : ℕ)
    → ((x : A) → w (h x) ≤ w x + k)
    → sum (map w (modify i h xs)) ≤ sum (map w xs) + k
sum-modify_le w h [] i k e = omega arith
sum-modify_le w h (x ∷ xs) zero k e = omega (arith, e x)
sum-modify_le w h (x ∷ xs) (suc i) k e = omega (arith, sum-modify_le w h xs i k e)

-- p is the users or the receivers of a group, and s what a transaction adds to them.
module _ (p : Group → List String) (s : String) (t : Tx)
    (pushed : (g : Group) → p (push t g) ≡ p g ++ s ∷ []) where
  abbrev related : List Group → Option ℕ
  related gs = find_index (λ g. any (λ w. str_eq w s) (p g)) gs

  abbrev spread : String → List Group → ℕ
  spread x gs = sum (map (λ g. has x (p g)) gs)

  spread_other :
      (x : String) (i : ℕ) (gs : List Group)
      → str_eq s x ≡ false
      → spread x (modify i (push t) gs) ≡ spread x gs
  spread_other x i gs h = ap sum (
      map-modify (λ g. has x (p g)) i (push t) (λ n. n) gs
        (λ g. ap (has x) (pushed g) ∙ has-snoc_other x s (p g) h)
      ∙ modify_id i _)

  spread_found :
      (x : String) (i : ℕ) (gs : List Group)
      → related gs ≡ some i
      → spread x (modify i (push t) gs) ≡ spread x gs
  spread_found x i gs h = elim (Bool-cases (str_eq s x)) [
    | inr e ↦ spread_other x i gs e
    | inl e ↦
        let same : s ≡ x = (eq_iff s x).0 e in
        let (g, at, hit) = find_index_found (λ g. any (λ w. str_eq w s) (p g)) gs i h in
        subst (λ y. spread y (modify i (push t) gs) ≡ spread y gs) same
          (ap sum (
            map-modify_at (λ g. has s (p g)) (push t) gs i g at
              (ap (has s) (pushed g) ∙ has-snoc_same s (p g) hit)))
  ]

  spread_new :
      (x : String) (i : ℕ) (gs : List Group)
      → related gs ≡ none
      → spread x gs ≤ 1
      → spread x (modify i (push t) gs) ≤ 1
  spread_new x i gs h k = elim (Bool-cases (str_eq s x)) [
    | inr e ↦ let same = spread_other x i gs e in omega arith
    | inl e ↦
        let same : s ≡ x = (eq_iff s x).0 e in
        let empty = none_found (λ g. any (λ w. str_eq w s) (p g)) gs h in
        let le = sum-modify_le (λ g. has s (p g)) (push t) gs i 1 (λ g. ground arith) in
        subst (λ y. spread y (modify i (push t) gs) ≤ 1) same (omega arith)
  ]

  spread_snoc :
      (x : String) (gs : List Group)
      → p no_group ≡ []
      → related gs ≡ none
      → spread x gs ≤ 1
      → spread x (gs ++ push t no_group ∷ []) ≤ 1
  spread_snoc x gs start h k =
      let total = sum-append (map (λ g. has x (p g)) gs) (has x (p (push t no_group)) ∷ []) in
      let snoc = ap sum (map-snoc (λ g. has x (p g)) gs (push t no_group)) in
      let last : has x (p (push t no_group)) ≡ has x (s ∷ []) =
        ap (has x) (pushed no_group ∙ ap (λ ws. ws ++ s ∷ []) start) in
      elim (Bool-cases (str_eq s x)) [
        | inr e ↦ let zero_last : has x (s ∷ []) ≡ 0 = rw e refl in omega arith
        | inl e ↦
            let same : s ≡ x = (eq_iff s x).0 e in
            let empty = none_found (λ g. any (λ w. str_eq w s) (p g)) gs h in
            let empty' : spread x gs ≡ 0 = subst (λ y. spread y gs ≡ 0) same empty in
            let one_last : has x (s ∷ []) ≡ 1 = rw e refl in omega arith
      ]

-- The users and receivers of a group are those of its transactions.
abbrev Mirrors : Group → Type 0
Mirrors g =
    (g.users ≡ map (λ (t : Tx). t.user) g.txs) × (g.receivers ≡ map (λ (t : Tx). t.receiver) g.txs)

record IsApart (gs : List Group) : Type 0 where
  users : (x : String) → sum (map (λ (g : Group). has x g.users) gs) ≤ 1
  receivers : (x : String) → sum (map (λ (g : Group). has x g.receivers) gs) ≤ 1
  mirrors : All Mirrors gs

map-snoc_tx :
    (key : Tx → String) (ts : List Tx) (t : Tx) → map key (ts ++ t ∷ []) ≡ map key ts ++ key t ∷ []
map-snoc_tx key [] t = refl
map-snoc_tx key (u ∷ ts) t = ap (λ ws. key u ∷ ws) (map-snoc_tx key ts t)

push-Mirrors : (t : Tx) (g : Group) → Mirrors g → Mirrors (push t g)
push-Mirrors t g (a, b) = (
  ap (λ ws. ws ++ t.user ∷ []) a ∙ sym (map-snoc_tx (λ (t : Tx). t.user) g.txs t),
  ap (λ ws. ws ++ t.receiver ∷ []) b ∙ sym (map-snoc_tx (λ (t : Tx). t.receiver) g.txs t),
)

place-IsApart :
    (t : Tx) (u r : Option ℕ) (gs : List Group)
    → user_related_bin t.user gs ≡ u
    → recv_related_bin t.receiver gs ≡ r
    → IsSingle u r
    → IsApart gs
    → IsApart (place u r t gs)
place-IsApart t (some u) (some r) gs a b single k = elim single [ inl e ↦ cc | inr e ↦ cc ]
place-IsApart t (some u) none gs a b single k = record {
  users = λ x. rw (spread_found (λ (g : Group). g.users) t.user t (λ g. refl) x u gs a) (k.users x);
  receivers = λ x.
      spread_new (λ (g : Group). g.receivers) t.receiver t (λ g. refl) x u gs b (k.receivers x);
  mirrors = All-modify Mirrors u (push t) gs (λ g at m. push-Mirrors t g m) k.mirrors;
}
place-IsApart t none (some r) gs a b single k = record {
  users = λ x. spread_new (λ (g : Group). g.users) t.user t (λ g. refl) x r gs a (k.users x);
  receivers = λ x.
      rw (spread_found (λ (g : Group). g.receivers) t.receiver t (λ g. refl) x r gs b)
        (k.receivers x);
  mirrors = All-modify Mirrors r (push t) gs (λ g at m. push-Mirrors t g m) k.mirrors;
}
place-IsApart t none none gs a b single k = record {
  users = λ x. spread_snoc (λ (g : Group). g.users) t.user t (λ g. refl) x gs refl a (k.users x);
  receivers = λ x.
      spread_snoc (λ (g : Group). g.receivers) t.receiver t (λ g. refl) x gs refl b (k.receivers x);
  mirrors = All-append Mirrors gs (push t no_group ∷ []) k.mirrors ((refl, refl), tt);
}

group_from-IsApart :
    (ts : List Tx) (gs : List Group) → HasNoJoin ts gs → IsApart gs → IsApart (group_from ts gs)
unfolding group_from
group_from-IsApart [] gs h k = k
group_from-IsApart (t ∷ ts) gs h k =
    group_from-IsApart ts _ h.1 (place-IsApart t _ _ gs refl refl h.0 k)

-- The bins with a transaction whose key is x.
abbrev pub bins_with : (Tx → String) → String → List (List Tx) → ℕ
bins_with key x bins = sum (map (λ b. has x (map key b)) bins)

has-append :
    (x : String) (key : Tx → String) (a b : List Tx)
    → has x (map key (a ++ b)) ≤ has x (map key a) + has x (map key b)
has-append x key [] b = omega arith
has-append x key (t ∷ a) b = ground (arith, has-append x key a b)

bins_with-distribute :
    (key : Tx → String) (x : String) (n : ℕ) (gs : List Group) (bins : List (List Tx))
    → bins_with key x (distribute n gs bins)
      ≤ bins_with key x bins + sum (map (λ (g : Group). has x (map key g.txs)) gs)
unfolding distribute
bins_with-distribute key x n [] bins = omega arith
bins_with-distribute key x n (g ∷ gs) bins =
    let i = min_bin_from 0 n 0 bins in
    let added =
      sum-modify_le (λ b. has x (map key b)) (λ b. b ++ g.txs) bins i (has x (map key g.txs))
        (λ b. has-append x key b g.txs) in
    let rest = bins_with-distribute key x n gs (modify i (λ b. b ++ g.txs) bins) in omega arith

mirrored :
    (p : Group → List String) (key : Tx → String) (x : String) (gs : List Group)
    → All (λ g. p g ≡ map key g.txs) gs
    → sum (map (λ (g : Group). has x (map key g.txs)) gs) ≡ sum (map (λ g. has x (p g)) gs)
mirrored p key x [] h = refl
mirrored p key x (g ∷ gs) h =
    rw (h.0) (ap (λ n. has x (map key g.txs) + n) (mirrored p key x gs h.1))

-- Where no transaction finds both its user and its receiver in a group, the transactions of each user
-- are all in one bin, and so are those to each receiver.
pub bins_with-parallelize :
    (block : List Tx) (x : String)
    → HasNoJoin block []
    → (bins_with (λ (t : Tx). t.user) x (parallelize block) ≤ 1)
      × (bins_with (λ (t : Tx). t.receiver) x (parallelize block) ≤ 1)
unfolding parallelize
bins_with-parallelize block x h =
    let gs = group_from block [] in
    let k : IsApart gs =
      group_from-IsApart block [] h
        (record { users = λ y. omega arith; receivers = λ y. omega arith; mirrors = tt }) in
    let empty_bins : List (List Tx) = [] ∷ [] ∷ [] ∷ [] ∷ [] in
    let us =
      mirrored (λ (g : Group). g.users) (λ (t : Tx). t.user) x gs
        (All-imp Mirrors _ gs (λ g m. m.0) k.mirrors) in
    let rs =
      mirrored (λ (g : Group). g.receivers) (λ (t : Tx). t.receiver) x gs
        (All-imp Mirrors _ gs (λ g m. m.1) k.mirrors) in
    let below_u = bins_with-distribute (λ (t : Tx). t.user) x (length block) gs empty_bins in
    let below_r = bins_with-distribute (λ (t : Tx). t.receiver) x (length block) gs empty_bins in
    let one_u = k.users x in let one_r = k.receivers x in (omega arith, omega arith)
