-- ===== src/Base/Maps.antt =====
-- Maps from texts to values, as lists of pairs: what the components use of std::unordered_map.
use mathlib.Core.Path.{◌≡◌, refl, sym, ap, ◌∙◌}
use mathlib.Core.Logic.{inl, inr}
use mathlib.Core.Bool.{Bool, true, false}
use mathlib.Core.List.{List, [], ◌∷◌}
use mathlib.Core.Option.{Option, none, some}
use Prim.Native.Nat.{ℕ, ◌+◌}
use Prim.Native.String.{String}
use native.Mathlib.Omega.{arith}
use text.Mathlib.Text.{◌==◌ as str_eq}
use text.Mathlib.TextEquality.{eq_iff}
use gruut.Base.Tests.{if◌then◌else◌, Bool-cases}

abbrev pub Assoc {ℓ} : Type ℓ → Type ℓ
Assoc A = List (String × A)

module _ {ℓ} {A : Type ℓ} where
  unfoldable pub at : String → Assoc A → Option A
  at k [] = none
  at k ((j, v) ∷ m) = if str_eq j k then some v else at k m

  -- An entry that is there is replaced.
  unfoldable pub insert_or_assign : String → A → Assoc A → Assoc A
  insert_or_assign k v [] = (k, v) ∷ []
  insert_or_assign k v ((j, w) ∷ m) =
      let rest = insert_or_assign k v m in if str_eq j k then (k, v) ∷ m else (j, w) ∷ rest

  unfoldable pub erase : String → Assoc A → Assoc A
  erase k [] = []
  erase k ((j, v) ∷ m) = let rest = erase k m in if str_eq j k then m else (j, v) ∷ rest

  abbrev pub IsDistinct : Assoc A → Type ℓ
  IsDistinct [] = Unit
  IsDistinct ((k, v) ∷ m) = (at k m ≡ none) × IsDistinct m

  -- How many values pass the test.
  unfoldable pub count_if : (A → Bool) → Assoc A → ℕ
  count_if p [] = 0
  count_if p ((k, v) ∷ m) = (if p v then 1 else 0) + count_if p m

  abbrev pub one_if : (A → Bool) → Option A → ℕ
  one_if p none = 0
  one_if p (some v) = if p v then 1 else 0

  pub at-insert_or_assign :
      (key k : String) (v : A) (m : Assoc A)
      → at key (insert_or_assign k v m) ≡ (if str_eq k key then some v else at key m)
  unfolding at insert_or_assign
  at-insert_or_assign key k v [] = refl
  at-insert_or_assign key k v ((j, w) ∷ m) = elim (Bool-cases (str_eq j k)) [
    | inl e ↦ let same : j ≡ k = (eq_iff j k).0 e in rw (e, same) (ground arith)
    | inr e ↦ elim (Bool-cases (str_eq j key)) [
      | inl f ↦ elim (Bool-cases (str_eq k key)) [
        | inl g ↦
            let same : j ≡ k = (eq_iff j key).0 f ∙ sym ((eq_iff k key).0 g) in
            let eq : str_eq j k ≡ true = (eq_iff j k).1 same in cc
        | inr g ↦ rw (e, f, g) refl
      ]
      | inr f ↦ rw (e, f) (at-insert_or_assign key k v m)
    ]
  ]

  pub at-insert_or_assign_self :
      (k : String) (v : A) (m : Assoc A) → at k (insert_or_assign k v m) ≡ some v
  at-insert_or_assign_self k v m = at-insert_or_assign k k v m ∙ rw ((eq_iff k k).1 refl) refl

  pub at-erase :
      (key k : String) (m : Assoc A)
      → IsDistinct m
      → at key (erase k m) ≡ (if str_eq k key then none else at key m)
  unfolding at erase
  at-erase key k [] d = ground arith
  at-erase key k ((j, w) ∷ m) d = elim (Bool-cases (str_eq j k)) [
    | inl e ↦ elim (Bool-cases (str_eq k key)) [
      | inl g ↦
          let same' : k ≡ key = (eq_iff k key).0 g in
          rw (e, (eq_iff k key).1 same')
            (ap (λ i. at i m) (sym same') ∙ (ap (λ i. at i m) (sym ((eq_iff j k).0 e)) ∙ d.0))
      | inr g ↦ let same : j ≡ k = (eq_iff j k).0 e in rw (e, same, g) refl
    ]
    | inr e ↦ elim (Bool-cases (str_eq j key)) [
      | inl f ↦ elim (Bool-cases (str_eq k key)) [
        | inl g ↦
            let same : j ≡ k = (eq_iff j key).0 f ∙ sym ((eq_iff k key).0 g) in
            let eq : str_eq j k ≡ true = (eq_iff j k).1 same in cc
        | inr g ↦ rw (e, f, g) refl
      ]
      | inr f ↦ rw (e, f) (at-erase key k m d.1)
    ]
  ]

  at_ne-insert_or_assign :
      (j k : String) (v : A) (m : Assoc A)
      → str_eq j k ≡ false
      → at j m ≡ none
      → at j (insert_or_assign k v m) ≡ none
  at_ne-insert_or_assign j k v m ne h = elim (Bool-cases (str_eq k j)) [
    | inl e ↦ let same : str_eq j k ≡ true = (eq_iff j k).1 (sym ((eq_iff k j).0 e)) in cc
    | inr e ↦ at-insert_or_assign j k v m ∙ rw e h
  ]

  pub insert_or_assign-IsDistinct :
      (k : String) (v : A) (m : Assoc A) → IsDistinct m → IsDistinct (insert_or_assign k v m)
  unfolding insert_or_assign at
  insert_or_assign-IsDistinct k v [] d = (refl, tt)
  insert_or_assign-IsDistinct k v ((j, w) ∷ m) d = elim (Bool-cases (str_eq j k)) [
    | inl e ↦ let same : j ≡ k = (eq_iff j k).0 e in rw e (ap (λ i. at i m) (sym same) ∙ d.0, d.1)
    | inr e ↦ rw e (at_ne-insert_or_assign j k v m e d.0, insert_or_assign-IsDistinct k v m d.1)
  ]

  at-erase-none :
      (j k : String) (m : Assoc A) → IsDistinct m → at j m ≡ none → at j (erase k m) ≡ none
  at-erase-none j k m d h = at-erase j k m d ∙ ground arith

  pub erase-IsDistinct : (k : String) (m : Assoc A) → IsDistinct m → IsDistinct (erase k m)
  unfolding erase
  erase-IsDistinct k [] d = tt
  erase-IsDistinct k ((j, w) ∷ m) d = elim (Bool-cases (str_eq j k)) [
    | inl e ↦ rw e d.1
    | inr e ↦ rw e (at-erase-none j k m d.1 d.0, erase-IsDistinct k m d.1)
  ]

  pub count_if-insert_or_assign :
      (p : A → Bool) (k : String) (v : A) (m : Assoc A)
      → count_if p (insert_or_assign k v m) + one_if p (at k m)
        ≡ count_if p m + (if p v then 1 else 0)
  unfolding count_if insert_or_assign at
  count_if-insert_or_assign p k v [] = omega arith
  count_if-insert_or_assign p k v ((j, w) ∷ m) = ground (arith, count_if-insert_or_assign p k v m)

  pub count_if-erase :
      (p : A → Bool) (k : String) (m : Assoc A)
      → count_if p (erase k m) + one_if p (at k m) ≡ count_if p m
  unfolding count_if erase at
  count_if-erase p k [] = omega arith
  count_if-erase p k ((j, w) ∷ m) = ground (arith, count_if-erase p k m)
