-- ===== src/Base/Masks.antt =====
-- What `&` with a mask, and `|` of fields that do not meet, are in arithmetic.
use Prim.Native.Nat.{ℕ, zero, suc, ◌+◌, ◌-◌, ◌*◌, ◌/◌, ◌%◌, ◌^◌, ◌≤◌, ◌<◌, bit_and, bit_or, bit_xor}
use Prim.Native.Nat.{bit_and-bitwise, bit_or-bitwise}
use mathlib.Core.Path.{◌≡◌, refl, ap}
use native.Mathlib.Omega.{arith}
use native.Mathlib.Nat.{pow-suc, one-le-pow, div-div-eq-div-mul}
use vm_i386_32bit.Base.Bits.{bit, bit-suc, bit_and_step, bit_or_step, bit_xor_step}

pub bit_and-zero : (x : ℕ) → bit_and x 0 ≡ 0
bit_and-zero x = go x x (omega arith)
  where
    go : (fuel n : ℕ) → n ≤ fuel → bit_and n 0 ≡ 0
    go fuel zero h = refl
    go zero (suc n) h = absurd (omega arith)
    go (suc fuel) (suc n) h =
        omega (arith, bit_and_step (suc n) 0, go fuel (suc n / 2) (omega arith))

pub bit_or-zero : (x : ℕ) → bit_or x 0 ≡ x
bit_or-zero x = go x x (omega arith)
  where
    go : (fuel n : ℕ) → n ≤ fuel → bit_or n 0 ≡ n
    go fuel zero h = refl
    go zero (suc n) h = absurd (omega arith)
    go (suc fuel) (suc n) h =
        omega (arith, bit_or_step (suc n) 0, go fuel (suc n / 2) (omega arith))

-- `x & (1 << k)`.
pub bit_and-pow : (k x : ℕ) → bit_and x (2 ^ k) ≡ bit k x * 2 ^ k
bit_and-pow zero x = omega (arith, bit_and_step x 1, bit_and-zero (x / 2))
bit_and-pow (suc k) x = rw (bit-suc k x) (
    omega (
      arith,
      bit_and_step x (2 ^ suc k),
      pow-suc 2 k,
      ap (λ (t : ℕ). bit_and (x / 2) t) half,
      bit_and-pow k (x / 2),
      ap (λ (t : ℕ). bit k (x / 2) * t) double,
    ))
  where
    double : 2 ^ suc k ≡ 2 * 2 ^ k
    double = omega (arith, pow-suc 2 k)

    half : 2 ^ suc k / 2 ≡ 2 ^ k
    half = omega (arith, pow-suc 2 k)

-- `x & ((1 << k) - 1)`.
pub bit_and-low : (k x : ℕ) → bit_and x (2 ^ k - 1) ≡ x % 2 ^ k
bit_and-low zero x = rw (bit_and-zero x) (omega arith)
bit_and-low (suc k) x = omega (
  arith,
  bit_and_step x (2 ^ suc k - 1),
  ap (λ (t : ℕ). bit_and (x / 2) t) half,
  bit_and-low k (x / 2),
  one-le-pow k 2,
  double,
  bits,
  ap (λ (t : ℕ). t * (x / 2 ^ suc k)) double,
  ap (λ (t : ℕ). 2 ^ k * t) bits,
)
  where
    double : 2 ^ suc k ≡ 2 * 2 ^ k
    double = omega (arith, pow-suc 2 k)

    bits : x / 2 ^ suc k ≡ x / 2 / 2 ^ k
    bits = rw (double, ← div-div-eq-div-mul x 2 (2 ^ k)) refl

    half : (2 ^ suc k - 1) / 2 ≡ 2 ^ k - 1
    half = omega (arith, double, one-le-pow k 2)

-- `(q << k) | r`, where `r` fits below.
pub bit_or-fields : (k q r : ℕ) → r < 2 ^ k → bit_or (q * 2 ^ k) r ≡ q * 2 ^ k + r
bit_or-fields zero q zero h = omega (arith, bit_or-zero (q * 2 ^ 0))
bit_or-fields zero q (suc r) h = absurd (omega arith)
bit_or-fields (suc k) q r h = omega (
  arith,
  bit_or_step (q * 2 ^ suc k) r,
  double,
  ap (λ (t : ℕ). bit_or t (r / 2)) half,
  bit_or-fields k q (r / 2) (omega (arith, pow-suc 2 k)),
)
  where
    double : q * 2 ^ suc k ≡ 2 * (q * 2 ^ k)
    double = omega (arith, ap (λ (t : ℕ). q * t) (pow-suc 2 k))

    half : q * 2 ^ suc k / 2 ≡ q * 2 ^ k
    half = omega (arith, double)

pub bit_and-le : (x y : ℕ) → bit_and x y ≤ x
bit_and-le x y = go x x y (omega arith)
  where
    go : (fuel n m : ℕ) → n ≤ fuel → bit_and n m ≤ n
    go fuel zero m h = omega (arith, bit_and-bitwise 0 m)
    go zero (suc n) m h = absurd (omega arith)
    go (suc fuel) (suc n) m h =
        omega (arith, bit_and_step (suc n) m, go fuel (suc n / 2) (m / 2) (omega arith))

pub bit_or-lt : (w x y : ℕ) → x < 2 ^ w → y < 2 ^ w → bit_or x y < 2 ^ w
bit_or-lt zero zero zero p q = omega arith
bit_or-lt zero (suc x) y p q = absurd (omega arith)
bit_or-lt zero zero (suc y) p q = absurd (omega arith)
bit_or-lt (suc w) x y p q = omega (
  arith,
  bit_or_step x y,
  pow-suc 2 w,
  bit_or-lt w (x / 2) (y / 2) (omega (arith, pow-suc 2 w)) (omega (arith, pow-suc 2 w)),
)

pub bit_xor-lt : (w x y : ℕ) → x < 2 ^ w → y < 2 ^ w → bit_xor x y < 2 ^ w
bit_xor-lt zero zero zero p q = omega arith
bit_xor-lt zero (suc x) y p q = absurd (omega arith)
bit_xor-lt zero zero (suc y) p q = absurd (omega arith)
bit_xor-lt (suc w) x y p q = omega (
  arith,
  bit_xor_step x y,
  pow-suc 2 w,
  bit_xor-lt w (x / 2) (y / 2) (omega (arith, pow-suc 2 w)) (omega (arith, pow-suc 2 w)),
)

pub bit_or_comm : (x y : ℕ) → bit_or x y ≡ bit_or y x
bit_or_comm x y = go (x + y) x y (omega arith)
  where
    go : (fuel n m : ℕ) → n + m ≤ fuel → bit_or n m ≡ bit_or m n
    go fuel zero m h = omega (arith, bit_or-bitwise 0 m, bit_or-zero m)
    go zero (suc n) m h = absurd (omega arith)
    go (suc fuel) (suc n) m h = omega (
      arith,
      bit_or_step (suc n) m,
      bit_or_step m (suc n),
      go fuel (suc n / 2) (m / 2) (omega arith),
    )

-- Four bytes put together, lowest first.
pub bit_or-bytes :
    (b0 b1 b2 b3 : ℕ)
    → b0 < 2 ^ 8
    → b1 < 2 ^ 8
    → b2 < 2 ^ 8
    → bit_or (bit_or (bit_or b0 (b1 * 2 ^ 8)) (b2 * 2 ^ 16)) (b3 * 2 ^ 24)
      ≡ b0 + 2 ^ 8 * (b1 + 2 ^ 8 * (b2 + 2 ^ 8 * (b3 + 0)))
bit_or-bytes b0 b1 b2 b3 h0 h1 h2 =
    let e1 : bit_or b0 (b1 * 2 ^ 8) ≡ b1 * 2 ^ 8 + b0 =
      rw (bit_or_comm b0 (b1 * 2 ^ 8)) (bit_or-fields 8 b1 b0 h0) in
    let e2 : bit_or (b1 * 2 ^ 8 + b0) (b2 * 2 ^ 16) ≡ b2 * 2 ^ 16 + (b1 * 2 ^ 8 + b0) =
      rw (bit_or_comm (b1 * 2 ^ 8 + b0) (b2 * 2 ^ 16))
        (bit_or-fields 16 b2 (b1 * 2 ^ 8 + b0) (omega arith)) in
    let low = b2 * 2 ^ 16 + (b1 * 2 ^ 8 + b0) in
    rw (e1, e2, bit_or_comm low (b3 * 2 ^ 24), bit_or-fields 24 b3 low (omega arith)) (omega arith)
