-- ===== src/Base/Int.antt =====
-- Machine integers of the source. `uint64_t` values are numbers below 2 ^ 64; an `int` is a ℤ.
use Prim.Native.Nat.{ℕ, zero, suc, ◌+◌, ◌-◌, ◌*◌, ◌%◌, ◌^◌, ◌<◌, ◌≤◌}
use mathlib.Core.Path.{◌≡◌}
use native.Mathlib.Omega.{arith}
use gruut.Base.Tests.{ltb, if◌then◌else◌}

-- `negsuc n` is -(n + 1).
pub data ℤ : Type 0 where
  pos : ℕ → ℤ
  negsuc : ℕ → ℤ

-- `uint64_t` subtraction and multiplication wrap.
abbrev pub sub64 : ℕ → ℕ → ℕ
sub64 a b = (a + 2 ^ 64 - b) % 2 ^ 64

abbrev pub mul64 : ℕ → ℕ → ℕ
mul64 a b = (a * b) % 2 ^ 64

-- static_cast<int> of a `uint64_t`
abbrev pub to_int : ℕ → ℤ
to_int a = let r = a % 2 ^ 32 in if ltb r (2 ^ 31) then pos r else negsuc (2 ^ 32 - r - 1)

abbrev pub pred_ℤ : ℤ → ℤ
pred_ℤ (pos zero) = negsuc 0
pred_ℤ (pos (suc n)) = pos n
pred_ℤ (negsuc n) = negsuc (suc n)

abbrev pub suc_ℤ : ℤ → ℤ
suc_ℤ (pos n) = pos (suc n)
suc_ℤ (negsuc zero) = pos 0
suc_ℤ (negsuc (suc n)) = negsuc n

-- `++` and `--` of an `int`, which wraps around here.
abbrev pub inc_int : ℤ → ℤ
inc_int (pos n) = if ltb n (2 ^ 31 - 1) then pos (suc n) else negsuc (2 ^ 31 - 1)
inc_int (negsuc zero) = pos 0
inc_int (negsuc (suc n)) = negsuc n

abbrev pub dec_int : ℤ → ℤ
dec_int (pos zero) = negsuc 0
dec_int (pos (suc n)) = pos n
dec_int (negsuc n) = if ltb n (2 ^ 31 - 1) then negsuc (suc n) else pos (2 ^ 31 - 1)

pub sub64-eq-sub : (a b : ℕ) → b ≤ a → a < 2 ^ 64 → sub64 a b ≡ a - b
sub64-eq-sub a b h k = omega arith

pub pred_ℤ-to_int : (a : ℕ) → 0 < a → a < 2 ^ 31 → pred_ℤ (to_int a) ≡ pos (a - 1)
pred_ℤ-to_int a h k = ground arith

pub pred_ℤ-to_int-sub64 :
    (a b : ℕ) → a < b → b < 2 ^ 31 → pred_ℤ (to_int (sub64 a b)) ≡ negsuc (suc (b - a - 1))
pred_ℤ-to_int-sub64 a b h k = ground arith

pub pred_ℤ-to_int_zero : (a : ℕ) → a < 2 ^ 31 → pred_ℤ (to_int (sub64 a a)) ≡ negsuc 0
pred_ℤ-to_int_zero a h = ground arith
