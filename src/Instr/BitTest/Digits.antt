-- ===== src/Instr/BitTest/Digits.antt =====
-- The digits of a 32-bit number that BTS, BTR and BTC store.
use vm_i386_32bit.Base.{
  ℕ, ◌+◌, ◌-◌, ◌*◌, ◌%◌, ◌^◌, ◌<◌, ◌≡◌, ◌≢◌, refl, arith, Bool, true, bit_and, bit_or, bit_xor, bit,
  min, max, bit-bit_and, bit-bit_or, bit-bit_xor, bit_or-lt, bit_xor-lt, bit_and-le, ◌==◌, ==_iff,
  ltb, ltb→lt, both, all_below, all_below-at, ◌&&◌, ap, ◌∙◌, if◌then◌else◌,
}
use vm_i386_32bit.Instr.Arith.{sub32}
use vm_i386_32bit.Instr.BitTest.{pow_i, pow_from}

-- The number with the digit `n` alone, and the one with all the other digits of 32.
abbrev one_digit : (n j : ℕ) → ℕ
one_digit n j = if j == n then 1 else 0

abbrev others_digit : (n j : ℕ) → ℕ
others_digit n j = if j == n then 0 else 1

mask : ℕ → ℕ
unfolding sub32
mask n = sub32 (2 ^ 32 - 1) (2 ^ n)

checks : (n j : ℕ) → Bool
unfolding mask
checks n j = bit j (2 ^ n) == one_digit n j && bit j (mask n) == others_digit n j

row : ℕ → Bool
row n = all_below (checks n) 32 && (pow_i 2 n == 2 ^ n && ltb (pow_i 2 n) (2 ^ 32))

rows_32 : all_below row 32 ≡ true
unfolding row checks mask sub32 pow_i pow_from
rows_32 = refl

-- What the table says of the digit `j`.
record Checked (n j : ℕ) : Type 0 where
  one : bit j (2 ^ n) ≡ one_digit n j
  rest : bit j (mask n) ≡ others_digit n j
  power : pow_i 2 n ≡ 2 ^ n
  fits : pow_i 2 n < 2 ^ 32

checked : (n j : ℕ) → n < 32 → j < 32 → Checked n j
unfolding row checks
checked n j hn hj =
    let (digits, rest) = both (all_below (checks n) 32) _ (all_below-at row 32 n rows_32 hn) in
    let (power, fits) = both (pow_i 2 n == 2 ^ n) _ rest in
    let (one, rest) =
      both (bit j (2 ^ n) == one_digit n j) _ (all_below-at (checks n) 32 j digits hj) in
    record {
      one = (==_iff _ _).0 one;
      rest = (==_iff _ _).0 rest;
      power = (==_iff _ _).0 power;
      fits = ltb→lt _ _ fits;
    }

-- The digit `n` of `x` becomes `g` of itself, and the other digits stay.
pub record Digit (g : ℕ → ℕ) (n x y : ℕ) : Type 0 where
  pub small : y < 2 ^ 32
  pub here : bit n y ≡ g (bit n x)
  pub elsewhere : (j : ℕ) → j < 32 → j ≢ n → bit j y ≡ bit j x

mask-lt : (n : ℕ) → mask n < 2 ^ 32
unfolding mask sub32
mask-lt n = omega arith

pub bts-Digit : (n x : ℕ) → n < 32 → x < 2 ^ 32 → Digit (λ b. 1) n x (bit_or x (pow_i 2 n))
bts-Digit n x hn hx =
    let power = (checked n n hn hn).power in
    let digit : (j : ℕ) → j < 32 → bit j (bit_or x (pow_i 2 n)) ≡ max (bit j x) (one_digit n j) =
      λ j hj.
        bit-bit_or j x (pow_i 2 n)
        ∙ ap (λ (t : ℕ). max (bit j x) (bit j t)) power
        ∙ ap (max (bit j x)) (checked n j hn hj).one in
    record {
      small = bit_or-lt 32 x (pow_i 2 n) hx (checked n n hn hn).fits;
      here = digit n hn ∙ ground arith;
      elsewhere = λ j hj ne. digit j hj ∙ ground arith;
    }

pub btr-Digit :
    (n x : ℕ)
    → n < 32
    → x < 2 ^ 32
    → Digit (λ b. 0) n x (bit_and x (sub32 (2 ^ (8 * 4) - 1) (pow_i 2 n)))
unfolding mask
btr-Digit n x hn hx =
    let power = (checked n n hn hn).power in
    let masked = ap (sub32 (2 ^ 32 - 1)) power in
    let digit : (j : ℕ)
        → j < 32
        → bit j (bit_and x (sub32 (2 ^ 32 - 1) (pow_i 2 n))) ≡ min (bit j x) (others_digit n j) =
      λ j hj.
        bit-bit_and j x (sub32 (2 ^ 32 - 1) (pow_i 2 n))
        ∙ ap (λ (t : ℕ). min (bit j x) (bit j t)) masked
        ∙ ap (min (bit j x)) (checked n j hn hj).rest in
    record {
      small = omega (arith, bit_and-le x (sub32 (2 ^ 32 - 1) (pow_i 2 n)));
      here = digit n hn ∙ ground arith;
      elsewhere = λ j hj ne. digit j hj ∙ ground arith;
    }

pub btc-Digit : (n x : ℕ) → n < 32 → x < 2 ^ 32 → Digit (λ b. 1 - b) n x (bit_xor x (pow_i 2 n))
btc-Digit n x hn hx =
    let power = (checked n n hn hn).power in
    let digit : (j : ℕ) → j < 32 → bit j (bit_xor x (pow_i 2 n)) ≡ (bit j x + one_digit n j) % 2 =
      λ j hj.
        bit-bit_xor j x (pow_i 2 n)
        ∙ ap (λ (t : ℕ). (bit j x + bit j t) % 2) power
        ∙ ap (λ (t : ℕ). (bit j x + t) % 2) (checked n j hn hj).one in
    record {
      small = bit_xor-lt 32 x (pow_i 2 n) hx (checked n n hn hn).fits;
      here = digit n hn ∙ ground arith;
      elsewhere = λ j hj ne. digit j hj ∙ ground arith;
    }
