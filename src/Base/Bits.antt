-- ===== src/Base/Bits.antt =====
-- The native bit operations, digit by digit: what a C expression with `&`, `|` and `^` does to
-- each binary digit of its operands, at every width.
use Prim.Native.Nat.{ℕ, zero, suc, ◌+◌, ◌*◌, ◌/◌, ◌%◌, ◌^◌, ◌≤◌, ◌<◌, min, max}
use Prim.Native.Nat.{bit_and, bit_or, bit_xor, digits, differ, bitwise}
use Prim.Native.Nat.{bit_and-bitwise, bit_or-bitwise, bit_xor-bitwise}
use mathlib.Core.Path.{◌≡◌, refl, sym, ◌∙◌}
use native.Mathlib.Omega.{arith}
use native.Mathlib.Nat.{pow-suc, div-div-eq-div-mul}

-- The digit of weight `2 ^ k`.
abbrev pub bit : ℕ → ℕ → ℕ
bit k n = n / 2 ^ k % 2

-- Two amounts of fuel that both cover the first operand give the same digits.
digits-fuel :
    (z : ℕ → ℕ) (f : ℕ → ℕ → ℕ) (k l x y : ℕ) → x ≤ k → x ≤ l → digits z f k x y ≡ digits z f l x y
digits-fuel z f (suc k) (suc l) (suc x) y p q =
    rw (digits-fuel z f k l (suc x / 2) (y / 2) (omega arith) (omega arith))
digits-fuel z f zero l (suc x) y p q = absurd (omega arith)
digits-fuel z f (suc k) zero (suc x) y p q = absurd (omega arith)
digits-fuel z f zero zero zero y p q = refl
digits-fuel z f zero (suc l) zero y p q = refl
digits-fuel z f (suc k) zero zero y p q = refl
digits-fuel z f (suc k) (suc l) zero y p q = refl

bitwise-suc :
    (z : ℕ → ℕ) (f : ℕ → ℕ → ℕ) (x y : ℕ)
    → bitwise z f (suc x) y ≡ bitwise z f (suc x / 2) (y / 2) * 2 + f (suc x % 2) (y % 2)
bitwise-suc z f x y =
    rw (digits-fuel z f x (suc x / 2) (suc x / 2) (y / 2) (omega arith) (omega arith))

-- The sum of two digits without its carry.
differ-digits : (x y : ℕ) → x < 2 → y < 2 → differ x y ≡ (x + y) % 2
differ-digits zero zero p q = refl
differ-digits zero (suc zero) p q = refl
differ-digits (suc zero) zero p q = refl
differ-digits (suc zero) (suc zero) p q = refl
differ-digits (suc (suc x)) y p q = absurd (omega arith)
differ-digits zero (suc (suc y)) p q = absurd (omega arith)
differ-digits (suc zero) (suc (suc y)) p q = absurd (omega arith)

-- One step of each operation: the lowest digit, and the rest.
pub bit_and_step : (x y : ℕ) → bit_and x y ≡ bit_and (x / 2) (y / 2) * 2 + min (x % 2) (y % 2)
bit_and_step zero y = simp bit_and-bitwise (omega arith)
bit_and_step (suc x) y = simp bit_and-bitwise (bitwise-suc (λ d. 0) min x y)

pub bit_or_step : (x y : ℕ) → bit_or x y ≡ bit_or (x / 2) (y / 2) * 2 + max (x % 2) (y % 2)
bit_or_step zero y = simp bit_or-bitwise (omega arith)
bit_or_step (suc x) y = simp bit_or-bitwise (bitwise-suc (λ d. d) max x y)

bit_xor_digits : (x y : ℕ) → bit_xor x y ≡ bit_xor (x / 2) (y / 2) * 2 + differ (x % 2) (y % 2)
bit_xor_digits zero y =
    simp bit_xor-bitwise (omega (arith, differ-digits 0 (y % 2) (omega arith) (omega arith)))
bit_xor_digits (suc x) y = simp bit_xor-bitwise (bitwise-suc (λ d. d) differ x y)

pub bit_xor_step : (x y : ℕ) → bit_xor x y ≡ bit_xor (x / 2) (y / 2) * 2 + (x + y) % 2
bit_xor_step x y =
    omega (arith, bit_xor_digits x y, differ-digits (x % 2) (y % 2) (omega arith) (omega arith))

-- The digits of a half.
pub bit-suc : (k n : ℕ) → bit (suc k) n ≡ bit k (n / 2)
bit-suc k n = rw (pow-suc' k, ← div-div-eq-div-mul n 2 (2 ^ k))
  where
    pow-suc' : (k : ℕ) → 2 ^ suc k ≡ 2 * 2 ^ k
    pow-suc' k = omega (arith, pow-suc 2 k)

-- `&`, `|` and `^` act on each digit by itself.
pub bit-bit_and : (k x y : ℕ) → bit k (bit_and x y) ≡ min (bit k x) (bit k y)
bit-bit_and zero x y = omega (arith, bit_and_step x y)
bit-bit_and (suc k) x y =
    let half : bit_and x y / 2 ≡ bit_and (x / 2) (y / 2) = omega (arith, bit_and_step x y) in
    rw (bit-suc k (bit_and x y), half, bit-suc k x, bit-suc k y) (bit-bit_and k (x / 2) (y / 2))

pub bit-bit_or : (k x y : ℕ) → bit k (bit_or x y) ≡ max (bit k x) (bit k y)
bit-bit_or zero x y = omega (arith, bit_or_step x y)
bit-bit_or (suc k) x y =
    let half : bit_or x y / 2 ≡ bit_or (x / 2) (y / 2) = omega (arith, bit_or_step x y) in
    rw (bit-suc k (bit_or x y), half, bit-suc k x, bit-suc k y) (bit-bit_or k (x / 2) (y / 2))

pub bit-bit_xor : (k x y : ℕ) → bit k (bit_xor x y) ≡ (bit k x + bit k y) % 2
bit-bit_xor zero x y = omega (arith, bit_xor_step x y)
bit-bit_xor (suc k) x y =
    let half : bit_xor x y / 2 ≡ bit_xor (x / 2) (y / 2) = omega (arith, bit_xor_step x y) in
    rw (bit-suc k (bit_xor x y), half, bit-suc k x, bit-suc k y) (bit-bit_xor k (x / 2) (y / 2))

-- Numbers of `w` digits are equal if all their digits are.
pub eq_of_bits : (w x y : ℕ) → x < 2 ^ w → y < 2 ^ w → ((k : ℕ) → k < w → bit k x ≡ bit k y) → x ≡ y
eq_of_bits zero x y p q same = omega arith
eq_of_bits (suc w) x y p q same = omega (
  arith,
  same 0 (omega arith),
  eq_of_bits w (x / 2) (y / 2) (omega (arith, pow-suc 2 w)) (omega (arith, pow-suc 2 w))
      (λ k h. sym (bit-suc k x) ∙ same (suc k) (omega arith) ∙ bit-suc k y),
)
