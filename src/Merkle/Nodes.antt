-- ===== src/Merkle/Nodes.antt =====
-- Each inner node of the tree is the parent of its two children.
use gruut.Base.{
  Bytes, ℕ, zero, suc, ◌+◌, ◌-◌, ◌*◌, ◌≤◌, ◌<◌, ◌≡◌, refl, sym, ap, subst, ◌∙◌, inl, inr, Option,
  List, [], ◌∷◌, ◌++◌, arith, length, length-append, length-modify, get_or, modify, ==_iff,
  Bool-cases, ◌==◌,
}
use gruut.Merkle.{repeat, leaves, dummy_leaf, make_parent, parents, generate}

get_or-modify_same {ℓ} :
    {A : Type ℓ} (i : ℕ) (f : A → A) (xs : List A) (d : A)
    → i < length xs
    → get_or (modify i f xs) i d ≡ f (get_or xs i d)
get_or-modify_same i f [] d h = elim h [ ]
get_or-modify_same zero f (x ∷ xs) d h = refl
get_or-modify_same (suc i) f (x ∷ xs) d h = get_or-modify_same i f xs d (omega arith)

get_or-modify_other {ℓ} :
    {A : Type ℓ} (i j : ℕ) (f : A → A) (xs : List A) (d : A)
    → j < i
    → get_or (modify i f xs) j d ≡ get_or xs j d
get_or-modify_other i j f [] d h = refl
get_or-modify_other zero j f (x ∷ xs) d h = elim h [ ]
get_or-modify_other (suc i) zero f (x ∷ xs) d h = refl
get_or-modify_other (suc i) (suc j) f (x ∷ xs) d h = get_or-modify_other i j f xs d (omega arith)

length-leaves : (n : ℕ) (contents : List Bytes) → length (leaves n contents) ≡ n
unfolding leaves
length-leaves zero contents = refl
length-leaves (suc n) [] = ap suc (length-leaves n [])
length-leaves (suc n) (c ∷ contents) = ap suc (length-leaves n contents)

length-repeat {ℓ} : {A : Type ℓ} (n : ℕ) (x : A) → length (repeat n x) ≡ n
length-repeat zero x = refl
length-repeat (suc n) x = ap suc (length-repeat n x)

get_or-append_left :
    (xs ys : List Bytes) (j : ℕ) → j < length xs → get_or (xs ++ ys) j [] ≡ get_or xs j []
get_or-append_left [] ys j h = elim h [ ]
get_or-append_left (x ∷ xs) ys zero h = refl
get_or-append_left (x ∷ xs) ys (suc j) h = get_or-append_left xs ys j (omega arith)

get_or-leaves :
    (n : ℕ) (contents : List Bytes) (j : ℕ)
    → j < n
    → get_or (leaves n contents) j [] ≡ get_or contents j dummy_leaf
unfolding leaves
get_or-leaves zero contents j h = elim h [ ]
get_or-leaves (suc n) [] zero h = refl
get_or-leaves (suc n) [] (suc j) h = get_or-leaves n [] j (omega arith)
get_or-leaves (suc n) (c ∷ contents) zero h = refl
get_or-leaves (suc n) (c ∷ contents) (suc j) h = get_or-leaves n contents j (omega arith)

module _ (known : Bytes → Option Bytes) (sha256 : Bytes → Bytes) (max : ℕ) where
  abbrev round : ℕ → List Bytes → List Bytes
  round k tree =
      modify (max + k)
        (λ _. make_parent known sha256 (get_or tree (2 * k) []) (get_or tree (2 * k + 1) [])) tree

  abbrev IsNode : List Bytes → ℕ → Type 0
  IsNode tree m =
      get_or tree (max + m) []
      ≡ make_parent known sha256 (get_or tree (2 * m) []) (get_or tree (2 * m + 1) [])

  get_or-parents :
      (n k j : ℕ) (tree : List Bytes)
      → j < max + k
      → get_or (parents known sha256 max n k tree) j [] ≡ get_or tree j []
  unfolding parents
  get_or-parents zero k j tree h = refl
  get_or-parents (suc n) k j tree h =
      get_or-parents n (suc k) j (round k tree) (omega arith)
      ∙ get_or-modify_other (max + k) j _ tree [] h

  first_IsNode :
      (n k : ℕ) (tree : List Bytes)
      → k + 1 < max
      → max + k < length tree
      → IsNode (parents known sha256 max (suc n) k tree) k
  unfolding parents
  first_IsNode n k tree c l =
      let final : List Bytes = parents known sha256 max (suc n) k tree in
      let node = get_or-parents n (suc k) (max + k) (round k tree) (omega arith) in
      let value =
        get_or-modify_same (max + k)
          (λ _. make_parent known sha256 (get_or tree (2 * k) []) (get_or tree (2 * k + 1) [])) tree
          [] l in
      let left = get_or-parents (suc n) k (2 * k) tree (omega arith) in
      let right = get_or-parents (suc n) k (2 * k + 1) tree (omega arith) in
      node
      ∙ value
      ∙ sym (
          ap (λ x. make_parent known sha256 x (get_or final (2 * k + 1) [])) left
          ∙ ap (make_parent known sha256 (get_or tree (2 * k) [])) right)

  parents-IsNode :
      (n k m : ℕ) (tree : List Bytes)
      → k ≤ m
      → m < k + n
      → k + n < max
      → max + k + n ≤ length tree
      → IsNode (parents known sha256 max n k tree) m
  unfolding parents
  parents-IsNode zero k m tree a b c l = let bad : ⊥ = omega arith in elim bad [ ]
  parents-IsNode (suc n) k m tree a b c l = elim (Bool-cases (k == m)) [
    | inl e ↦
        let same : k ≡ m = (==_iff k m).0 e in
        subst (IsNode (parents known sha256 max (suc n) k tree)) same
          (first_IsNode n k tree (omega arith) (omega arith))
    | inr e ↦ parents-IsNode n (suc k) m (round k tree) (ground arith) (omega arith) (omega arith) (
        rw
          (length-modify (max + k)
            (λ _. make_parent known sha256 (get_or tree (2 * k) []) (get_or tree (2 * k + 1) []))
            tree)
          (omega arith))
  ]

-- Entry max + m of a generated tree is made of the entries 2 * m and 2 * m + 1, for each m below
-- max - 1, and the entries before are the contents, with dummies behind them.
pub generate-nodes :
    (known : Bytes → Option Bytes) (sha256 : Bytes → Bytes) (max : ℕ) (contents : List Bytes)
    → let tree = generate known sha256 max contents in
      ((j : ℕ) → j < max → get_or tree j [] ≡ get_or contents j dummy_leaf)
      × ((m : ℕ)
          → m + 1 < max
          → get_or tree (max + m) []
            ≡ make_parent known sha256 (get_or tree (2 * m) []) (get_or tree (2 * m + 1) []))
unfolding generate
generate-nodes known sha256 max contents =
    let start = leaves max contents ++ repeat (max - 1) [] in
    let size : length start ≡ max + (max - 1) =
      length-append (leaves max contents) (repeat (max - 1) [])
      ∙ (let a = length-leaves max contents in
          let b = length-repeat {A = Bytes} (max - 1) [] in omega arith) in
    (
      λ j h.
          get_or-parents known sha256 max (max - 1) 0 j start (omega arith)
          ∙ get_or-append_left (leaves max contents) _ j
              (let a = length-leaves max contents in omega arith)
          ∙ get_or-leaves max contents j h,
      λ m h.
          parents-IsNode known sha256 max (max - 1) 0 m start (omega arith) (omega arith)
            (omega arith) (omega arith),
    )
