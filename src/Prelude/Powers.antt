-- ===== src/Prelude/Powers.antt =====
-- `n & (n-1)`, which is zero for the powers of two and for no other number above zero.
use Prim.Native.Nat.{
  ℕ, zero, suc, ◌+◌, ◌-◌, ◌*◌, ◌/◌, ◌%◌, ◌^◌, ◌≤◌, ◌<◌, min, bit_and, bit_and-bitwise,
}
use mathlib.Core.Path.{◌≡◌, refl}
use mathlib.Core.Logic.{inl, inr}
use native.Mathlib.Nat.{pow-suc}
use libsqfs.Prelude.Bits.{digits_enough}
use libsqfs.Prelude.Tests.{◌==◌, Bool-cases}
use native.Mathlib.Omega.{arith}

-- The lowest digit of `a & b`, and the others.
lowest_digit : (a b : ℕ) → 0 < a → bit_and a b ≡ bit_and (a / 2) (b / 2) * 2 + min (a % 2) (b % 2)
lowest_digit zero b h = absurd (omega arith)
lowest_digit (suc a) b h =
    let half = suc a / 2 in
    let same = digits_enough (λ b. zero) min a half half (b / 2) (omega arith) (omega arith) in
    let whole = bit_and-bitwise (suc a) b in
    let others = bit_and-bitwise half (b / 2) in omega (arith, same, whole, others)

bit_and_self_fuel : (n a : ℕ) → a ≤ n → bit_and a a ≡ a
bit_and_self_fuel n zero h = bit_and-bitwise 0 0
bit_and_self_fuel zero (suc a) h = absurd (omega arith)
bit_and_self_fuel (suc n) (suc a) h = omega (
  arith,
  lowest_digit (suc a) (suc a) (omega arith),
  bit_and_self_fuel n (suc a / 2) (omega arith),
)

-- Such a number is one, or twice another one.
pub bit_and_pred-half :
    (n : ℕ) → 1 < n → bit_and n (n - 1) ≡ 0 → (n ≡ 2 * (n / 2)) × (bit_and (n / 2) (n / 2 - 1) ≡ 0)
bit_and_pred-half n big e =
    let step = lowest_digit n (n - 1) (omega arith) in
    elim (Bool-cases (n % 2 == 0)) [
      | inl even ↦
          let same : (n - 1) / 2 ≡ n / 2 - 1 = ground (arith, even) in
          let halves = rw same at step in (ground (arith, even), omega (arith, halves, e))
      | inr odd ↦
          let same : (n - 1) / 2 ≡ n / 2 = ground (arith, odd) in
          let halves = rw same at step in
          absurd (omega (arith, halves, e, bit_and_self_fuel n (n / 2) (omega arith)))
    ]

pow-pos : (k : ℕ) → 0 < 2 ^ k
pow-pos zero = omega arith
pow-pos (suc k) = omega (arith, pow-suc 2 k, pow-pos k)

-- Half of a power of two.
pub pow-half : (k : ℕ) → (2 ^ suc k / 2 ≡ 2 ^ k) × (0 < 2 ^ k)
pow-half k = (omega (arith, pow-suc 2 k), pow-pos k)

pub bit_and_pred-pow : (k : ℕ) → bit_and (2 ^ k) (2 ^ k - 1) ≡ 0
bit_and_pred-pow zero = refl
bit_and_pred-pow (suc k) =
    let (half, pos) = pow-half k in
    let same : (2 ^ suc k - 1) / 2 ≡ 2 ^ k - 1 = omega (arith, pow-suc 2 k, pos) in
    let even : 2 ^ suc k % 2 ≡ 0 = omega (arith, pow-suc 2 k) in
    let step = lowest_digit (2 ^ suc k) (2 ^ suc k - 1) (omega (arith, pow-suc 2 k, pos)) in
    let halves = rw (half, same) at step in omega (arith, halves, even, bit_and_pred-pow k)
