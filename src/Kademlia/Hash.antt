-- ===== src/Kademlia/Hash.antt =====
-- Hash<160>: src/plugins/net_plugin/kademlia/include/hash.hpp. A hash is the list of its 20 bytes,
-- and a bitset the function from a position to its bit.
use Prim.Native.Nat.{bit_xor}
use gruut.Base.{
  ℕ, zero, suc, ◌-◌, ◌/◌, ◌%◌, ◌^◌, ◌<◌, ◌≡◌, refl, Bool, true, false, ◌&&◌, ◌||◌, List, [], ◌∷◌,
  arith, ltb, leb, ◌==◌, if◌then◌else◌, length, get_or,
}

abbrev pub Hash160 : Type 0
Hash160 = List ℕ

abbrev pub BitSet : Type 0
BitSet = ℕ → Bool

abbrev pub keysize_bits : ℕ
keysize_bits = 160

-- operator==
unfoldable pub hash_eq : Hash160 → Hash160 → Bool
hash_eq [] [] = true
hash_eq [] (y ∷ ys) = false
hash_eq (x ∷ xs) [] = false
hash_eq (x ∷ xs) (y ∷ ys) = x == y && hash_eq xs ys

-- operator<, where the second test of the loop compares `lhs.m_storage[i]` with itself.
unfoldable pub hash_lt : Hash160 → Hash160 → Bool
hash_lt [] ys = false
hash_lt (x ∷ xs) [] = false
hash_lt (x ∷ xs) (y ∷ ys) =
    let rest = hash_lt xs ys in if ltb x y then true else if ltb x x then false else rest

-- operator^=
unfoldable pub hash_xor : Hash160 → Hash160 → Hash160
hash_xor [] ys = []
hash_xor (x ∷ xs) [] = x ∷ xs
hash_xor (x ∷ xs) (y ∷ ys) = bit_xor x y ∷ hash_xor xs ys

unfoldable pub is_all_zero : Hash160 → Bool
is_all_zero [] = true
is_all_zero (x ∷ xs) = x == 0 && is_all_zero xs

abbrev pub testbit : ℕ → ℕ → Bool
testbit n i = (n / 2 ^ i) % 2 == 1

-- std::bitset<160>(n) << s
abbrev pub shifted : ℕ → ℕ → BitSet
shifted n s i = ltb i keysize_bits && (leb s i && testbit n (i - s))

-- The loop of toBitSet over the bytes left, with `shift_left` and the bits so far.
or_bytes : ℕ → Hash160 → BitSet → BitSet
or_bytes s [] bs = bs
or_bytes s (n ∷ ns) bs = or_bytes (s - 8) ns (λ i. bs i || shifted n (s - 8) i)

unfoldable pub to_bit_set : Hash160 → BitSet
unfolding or_bytes
to_bit_set h = or_bytes keysize_bits h (λ i. false)

pub hash_eq-eq : (x y : Hash160) → hash_eq x y ≡ true → x ≡ y
unfolding hash_eq
hash_eq-eq [] [] h = refl
hash_eq-eq [] (y ∷ ys) h = cc
hash_eq-eq (x ∷ xs) [] h = cc
hash_eq-eq (x ∷ xs) (y ∷ ys) h = ground (arith, hash_eq-eq xs ys)

pub hash_eq_refl : (x : Hash160) → hash_eq x x ≡ true
unfolding hash_eq
hash_eq_refl [] = refl
hash_eq_refl (x ∷ xs) = ground (arith, hash_eq_refl xs)

-- The order that the operator gives: some byte is below the other's, whatever stands before it.
pub hash_lt-of_byte :
    (x y : Hash160) (i : ℕ)
    → i < length x
    → i < length y
    → get_or x i 0 < get_or y i 0
    → hash_lt x y ≡ true
unfolding hash_lt
hash_lt-of_byte [] y i h k l = elim h [ ]
hash_lt-of_byte (x ∷ xs) [] i h k l = elim k [ ]
hash_lt-of_byte (x ∷ xs) (y ∷ ys) zero h k l = ground arith
hash_lt-of_byte (x ∷ xs) (y ∷ ys) (suc i) h k l =
    ground (arith, hash_lt-of_byte xs ys i (omega arith) (omega arith) l)

-- `operator<` is no order: two hashes are each below the other as soon as one byte of the first is
-- smaller and another byte of the second is smaller.
pub hash_lt_both :
    (x y : Hash160) (i j : ℕ)
    → length x ≡ length y
    → i < length x
    → j < length x
    → get_or x i 0 < get_or y i 0
    → get_or y j 0 < get_or x j 0
    → (hash_lt x y ≡ true) × (hash_lt y x ≡ true)
hash_lt_both x y i j same hi hj less more =
    (hash_lt-of_byte x y i hi (omega arith) less, hash_lt-of_byte y x j (omega arith) hj more)
