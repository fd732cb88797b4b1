-- ===== src/Base/Shift.antt =====
-- `(v << 8) | b` on natural numbers: the shift leaves room for the byte, so nothing is mixed.
use Prim.Native.Nat.{
  ℕ, zero, suc, ◌+◌, ◌*◌, ◌/◌, ◌%◌, ◌^◌, ◌≤◌, ◌<◌, max, bit_or, digits, bit_or-bitwise,
}
use mathlib.Core.Path.{◌≡◌, refl}
use native.Mathlib.Omega.{arith}

abbrev joined : ℕ → ℕ → ℕ → ℕ
joined rounds v b = digits (λ b. b) max rounds v b

-- More rounds than digits change nothing.
joined_rounds : (v b m n : ℕ) → v ≤ m → v ≤ n → joined m v b ≡ joined n v b
joined_rounds v b zero zero hm hn = refl
joined_rounds zero b zero (suc n) hm hn = refl
joined_rounds (suc v) b zero (suc n) hm hn = absurd (omega arith)
joined_rounds zero b (suc m) zero hm hn = refl
joined_rounds (suc v) b (suc m) zero hm hn = absurd (omega arith)
joined_rounds zero b (suc m) (suc n) hm hn = refl
joined_rounds (suc v) b (suc m) (suc n) hm hn =
    omega (arith, joined_rounds (suc v / 2) (b / 2) m n (omega arith) (omega arith))

bit_or-zero_left : (b : ℕ) → bit_or 0 b ≡ b
bit_or-zero_left b = bit_or-bitwise 0 b

last_digit : (v b : ℕ) → bit_or v b ≡ bit_or (v / 2) (b / 2) * 2 + max (v % 2) (b % 2)
last_digit zero b = omega (arith, bit_or-zero_left b, bit_or-zero_left (b / 2))
last_digit (suc v) b = omega (
  arith,
  bit_or-bitwise (suc v) b,
  bit_or-bitwise (suc v / 2) (b / 2),
  joined_rounds (suc v / 2) (b / 2) v (suc v / 2) (omega arith) (omega arith),
)

bit_or-zero_below : (bound v : ℕ) → v ≤ bound → bit_or v 0 ≡ v
bit_or-zero_below bound zero h = bit_or-zero_left 0
bit_or-zero_below zero (suc v) h = absurd (omega arith)
bit_or-zero_below (suc bound) (suc v) h =
    omega (arith, last_digit (suc v) 0, bit_or-zero_below bound (suc v / 2) (omega arith))

bit_or-double : (v b : ℕ) → bit_or (v * 2) b ≡ bit_or v (b / 2) * 2 + b % 2
bit_or-double v b = let half : v * 2 / 2 ≡ v = omega arith in rw half at (last_digit_even v b)
  where
    last_digit_even : (v b : ℕ) → bit_or (v * 2) b ≡ bit_or (v * 2 / 2) (b / 2) * 2 + b % 2
    last_digit_even v b = omega (arith, last_digit (v * 2) b)

bit_or-no_bits : (v b : ℕ) → b ≡ 0 → bit_or v b ≡ v
bit_or-no_bits v b none_left = rw none_left (bit_or-zero_below v v (omega arith))

pub bit_or-shift_byte : (v b : ℕ) → b < 256 → bit_or (v * 2 ^ 8) b ≡ v * 256 + b
bit_or-shift_byte v b h =
    let v₁ = v * 2 in
    let v₂ = v₁ * 2 in
    let v₃ = v₂ * 2 in
    let v₄ = v₃ * 2 in
    let v₅ = v₄ * 2 in
    let v₆ = v₅ * 2 in
    let v₇ = v₆ * 2 in
    let shifted : v * 2 ^ 8 ≡ v₇ * 2 = omega arith in
    rw shifted (
      omega (
        arith,
        bit_or-double v₇ b,
        bit_or-double v₆ (b / 2),
        bit_or-double v₅ (b / 2 / 2),
        bit_or-double v₄ (b / 2 / 2 / 2),
        bit_or-double v₃ (b / 2 / 2 / 2 / 2),
        bit_or-double v₂ (b / 2 / 2 / 2 / 2 / 2),
        bit_or-double v₁ (b / 2 / 2 / 2 / 2 / 2 / 2),
        bit_or-double v (b / 2 / 2 / 2 / 2 / 2 / 2 / 2),
        bit_or-no_bits v (b / 2 / 2 / 2 / 2 / 2 / 2 / 2 / 2) (omega arith),
      ))
