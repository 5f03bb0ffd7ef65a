-- ===== src/Net/Bitset.antt =====
-- Bitsets and std::vector::resize, as class UserPool of
-- src/plugins/net_plugin/include/user_pool_manager.hpp uses them. The highest bit stands first.
use gruut.Base.{ℕ, zero, suc, ◌+◌, ◌/◌, ◌%◌, ◌^◌, Bool, false, List, [], ◌∷◌, ◌==◌, if◌then◌else◌}

abbrev bit : ℕ → ℕ → Bool
bit k n = ((n / 2 ^ k) % 2) == 1

-- bitset<8>(c).to_string(), the highest bit first
abbrev pub byte_bits : ℕ → List Bool
byte_bits n = bit 7 n ∷ bit 6 n ∷ bit 5 n ∷ bit 4 n ∷ bit 3 n ∷ bit 2 n ∷ bit 1 n ∷ bit 0 n ∷ []

abbrev pub Bitset : Type 0
Bitset = List Bool

module _ {ℓ} {A : Type ℓ} where
  -- resize: what is too long is cut, what is too short is filled up.
  abbrev pub resize : ℕ → A → List A → List A
  resize zero d xs = []
  resize (suc n) d [] = d ∷ resize n d []
  resize (suc n) d (x ∷ xs) = x ∷ resize n d xs

abbrev pub falses : ℕ → Bitset
falses zero = []
falses (suc n) = false ∷ falses n

-- (a ^ b).count()
abbrev pub xor_count : Bitset → Bitset → ℕ
xor_count [] bs = 0
xor_count (a ∷ xs) [] = 0
xor_count (a ∷ xs) (b ∷ bs) =
    (if a then if b then 0 else 1 else if b then 1 else 0) + xor_count xs bs
