-- ===== src/Prelude/Bits.antt =====
-- `|` of C at variables: joining two fields that do not overlap.
use Prim.Native.Nat.{
  ℕ, zero, suc, ◌+◌, ◌*◌, ◌/◌, ◌%◌, ◌^◌, ◌≤◌, ◌<◌, max, bit_or, digits, bit_or-bitwise,
}
use mathlib.Core.Path.{◌≡◌, refl, ap, sym, ◌∙◌}
use mathlib.Core.Logic.{inl, inr}
use native.Mathlib.Nat.{pow-suc}
use libsqfs.Prelude.Tests.{◌==◌, Bool-cases}
use native.Mathlib.Omega.{arith}

-- Fuel beyond the first number does not change the digits, for any operation on them.
module _ (rest : ℕ → ℕ) (op : ℕ → ℕ → ℕ) where
  pub digits_enough : (n m a b : ℕ) → a ≤ n → a ≤ m → digits rest op n a b ≡ digits rest op m a b
  digits_enough n m zero b p q = digits_zero n b ∙ sym (digits_zero m b)
    where
      digits_zero : (n b : ℕ) → digits rest op n zero b ≡ rest b
      digits_zero zero b = refl
      digits_zero (suc n) b = refl
  digits_enough (suc n) (suc m) (suc a) b p q =
      omega (arith, digits_enough n m (suc a / 2) (b / 2) (omega arith) (omega arith))
  digits_enough zero m (suc a) b p q = absurd (omega arith)
  digits_enough (suc n) zero (suc a) b p q = absurd (omega arith)

zero-bit_or : (b : ℕ) → bit_or 0 b ≡ b
zero-bit_or b = bit_or-bitwise 0 b

-- The lowest digit of `a | b`, and the others.
bit_or_step : (a b : ℕ) → bit_or a b ≡ bit_or (a / 2) (b / 2) * 2 + max (a % 2) (b % 2)
bit_or_step zero b = omega (arith, zero-bit_or b, zero-bit_or (b / 2))
bit_or_step (suc a) b = omega (
  arith,
  bit_or-bitwise (suc a) b,
  bit_or-bitwise (suc a / 2) (b / 2),
  digits_enough (λ b. b) max a (suc a / 2) (suc a / 2) (b / 2) (omega arith) (omega arith),
)

bit_or_zero_fuel : (n a : ℕ) → a ≤ n → bit_or a 0 ≡ a
bit_or_zero_fuel n zero h = refl
bit_or_zero_fuel zero (suc a) h = absurd (omega arith)
bit_or_zero_fuel (suc n) (suc a) h =
    omega (arith, bit_or_step (suc a) 0, bit_or_zero_fuel n (suc a / 2) (omega arith))

pub bit_or-zero : (a : ℕ) → bit_or a 0 ≡ a
bit_or-zero a = bit_or_zero_fuel a a (omega arith)

-- `a | (b << k)` with `a` below `1 << k` is a sum.
pub bit_or_fields : (k a b : ℕ) → a < 2 ^ k → bit_or a (b * 2 ^ k) ≡ a + b * 2 ^ k
bit_or_fields zero a b h = ground (arith, zero-bit_or b)
bit_or_fields (suc k) a b h =
    let shifted : b * 2 ^ suc k ≡ 2 * (b * 2 ^ k) =
      omega (arith, ap (λ (t : ℕ). b * t) (pow-suc 2 k)) in
    let low : a / 2 < 2 ^ k = omega (arith, pow-suc 2 k) in
    ground (arith, shifted, bit_or_step a (b * 2 ^ suc k), bit_or_fields k (a / 2) b low)

-- Setting one bit above the value.
pub bit_or_flag : (k a : ℕ) → a < 2 ^ k → bit_or a (2 ^ k) ≡ a + 2 ^ k
bit_or_flag k a h =
    let one_bit : 1 * 2 ^ k ≡ 2 ^ k = omega arith in rw one_bit at (bit_or_fields k a 1 h)

bit_or_comm_fuel : (n a b : ℕ) → a + b ≤ n → bit_or a b ≡ bit_or b a
bit_or_comm_fuel zero a b h =
    let e : a ≡ 0 = omega arith in let e' : b ≡ 0 = omega arith in rw (e, e') refl
bit_or_comm_fuel (suc n) a b h = elim (Bool-cases (a + b == 0)) [
  | inl e ↦
      let z : a ≡ 0 = ground (arith, e) in let z' : b ≡ 0 = ground (arith, e) in rw (z, z') refl
  | inr e ↦
      let smaller : a / 2 + b / 2 ≤ n = ground (arith, e) in
      omega (arith, bit_or_step a b, bit_or_step b a, bit_or_comm_fuel n (a / 2) (b / 2) smaller)
]

pub bit_or_comm : (a b : ℕ) → bit_or a b ≡ bit_or b a
bit_or_comm a b = bit_or_comm_fuel (a + b) a b (omega arith)
