-- ===== src/Flags/Meaning.antt =====
-- What the tests of src/flags.c say of the numbers that they are given.
use vm_i386_32bit.Base.{
  ℕ, zero, suc, ◌+◌, ◌-◌, ◌/◌, ◌%◌, ◌^◌, ◌≤◌, ◌<◌, ◌≡◌, ◌↔◌, refl, true, false, arith, bit_and,
  bit_xor, min, ap, ◌∙◌, bit, bit-bit_and, bit-bit_xor, bit_and-pow, bit_and-low,
}
use native.Mathlib.Nat.{add-zero, zero-add}
use native.Mathlib.Numerals.{add-one}
use vm_i386_32bit.Base.Int.{signed, Fits, ◌+ℤ◌, ◌-ℤ◌}
use vm_i386_32bit.Flags.{sign, overflow, parity, parity_loop, adjust}

-- The widths of the operands.
pub data Width : Type 0 where
  byte word dword : Width

abbrev pub bytes : Width → ℕ
bytes byte = 1
bytes word = 2
bytes dword = 4

abbrev pub bits : Width → ℕ
bits byte = 8
bits word = 16
bits dword = 32

-- The ones among the `k` lowest digits.
pub ones : ℕ → ℕ → ℕ
ones zero v = 0
ones (suc k) v = ones k v + bit k v

-- `overflow` reads one digit of each argument.
overflow_digit :
    (k a b r : ℕ)
    → bit_and (bit_and (bit_xor a r) (bit_xor b r) / 2 ^ k) 1
      ≡ min ((bit k a + bit k r) % 2) ((bit k b + bit k r) % 2)
overflow_digit k a b r = ground (
  arith,
  bit_and-low 1 (bit_and (bit_xor a r) (bit_xor b r) / 2 ^ k),
  bit-bit_and k (bit_xor a r) (bit_xor b r),
  bit-bit_xor k a r,
  bit-bit_xor k b r,
)

abbrev pub sum_of : Width → ℕ → ℕ → ℕ
sum_of w a b = (a + b) % 2 ^ bits w

abbrev pub difference_of : Width → ℕ → ℕ → ℕ
difference_of w a b = (a + 2 ^ bits w - b) % 2 ^ bits w

module _ (a b : ℕ) where
  -- For two numbers below two to the width of 8, 16 or 32 bits and their sum modulo that power,
  -- overflow returns false exactly if the sum of the two as signed integers fits the width.
  pub overflow-add :
      (w : Width)
      → a < 2 ^ bits w
      → b < 2 ^ bits w
      → (overflow a b (sum_of w a b) (bits w) ≡ false)
        ↔ Fits (bits w) (signed (bits w) a +ℤ signed (bits w) b)
  unfolding overflow
  overflow-add byte p q = ground (arith, overflow_digit 7 a b (sum_of byte a b))
  overflow-add word p q = ground (arith, overflow_digit 15 a b (sum_of word a b))
  overflow-add dword p q = ground (arith, overflow_digit 31 a b (sum_of dword a b))

  -- For two numbers below two to the width of 8, 16 or 32 bits and their difference modulo that
  -- power, where overflow returns true the difference of the two as signed integers does fit the
  -- width.
  pub overflow-sub-Fits :
      (w : Width)
      → a < 2 ^ bits w
      → b < 2 ^ bits w
      → overflow a b (difference_of w a b) (bits w) ≡ true
      → Fits (bits w) (signed (bits w) a -ℤ signed (bits w) b)
  unfolding overflow
  overflow-sub-Fits byte p q h = ground (arith, overflow_digit 7 a b (difference_of byte a b))
  overflow-sub-Fits word p q h = ground (arith, overflow_digit 15 a b (difference_of word a b))
  overflow-sub-Fits dword p q h = ground (arith, overflow_digit 31 a b (difference_of dword a b))

  -- Of two numbers without sign `overflow` sees the sign of the difference.
  pub overflow-sub_nonneg :
      a < 2 ^ 31
      → b < 2 ^ 31
      → overflow a b (difference_of dword a b) 32 ≡ sign (difference_of dword a b) 32
  unfolding overflow sign
  overflow-sub_nonneg p q = ground (arith, overflow_digit 31 a b (difference_of dword a b))

  -- The digits that the byte and word tests read are the same in the 32-bit difference.
  pub overflow-sub_wide :
      (w : Width)
      → a < 2 ^ bits w
      → b < 2 ^ bits w
      → overflow a b (difference_of dword a b) (bits w) ≡ true
      → Fits (bits w) (signed (bits w) a -ℤ signed (bits w) b)
  unfolding overflow
  overflow-sub_wide byte p q h = ground (arith, overflow_digit 7 a b (difference_of dword a b))
  overflow-sub_wide word p q h = ground (arith, overflow_digit 15 a b (difference_of dword a b))
  overflow-sub_wide dword p q h = ground (arith, overflow_digit 31 a b (difference_of dword a b))

  pub adjust-add : (w : Width) → (adjust a b (sum_of w a b) ≡ true) ↔ (16 ≤ a % 16 + b % 16)
  unfolding adjust
  adjust-add byte = ground (
    arith,
    bit_and-pow 4 (bit_xor (bit_xor a b) (sum_of byte a b)),
    bit-bit_xor 4 (bit_xor a b) (sum_of byte a b),
    bit-bit_xor 4 a b,
  )
  adjust-add word = ground (
    arith,
    bit_and-pow 4 (bit_xor (bit_xor a b) (sum_of word a b)),
    bit-bit_xor 4 (bit_xor a b) (sum_of word a b),
    bit-bit_xor 4 a b,
  )
  adjust-add dword = ground (
    arith,
    bit_and-pow 4 (bit_xor (bit_xor a b) (sum_of dword a b)),
    bit-bit_xor 4 (bit_xor a b) (sum_of dword a b),
    bit-bit_xor 4 a b,
  )

  pub adjust-sub :
      (w : Width) → b < 2 ^ bits w → (adjust a b (difference_of w a b) ≡ true) ↔ (a % 16 < b % 16)
  unfolding adjust
  adjust-sub byte q = ground (
    arith,
    bit_and-pow 4 (bit_xor (bit_xor a b) (difference_of byte a b)),
    bit-bit_xor 4 (bit_xor a b) (difference_of byte a b),
    bit-bit_xor 4 a b,
  )
  adjust-sub word q = ground (
    arith,
    bit_and-pow 4 (bit_xor (bit_xor a b) (difference_of word a b)),
    bit-bit_xor 4 (bit_xor a b) (difference_of word a b),
    bit-bit_xor 4 a b,
  )
  adjust-sub dword q = ground (
    arith,
    bit_and-pow 4 (bit_xor (bit_xor a b) (difference_of dword a b)),
    bit-bit_xor 4 (bit_xor a b) (difference_of dword a b),
    bit-bit_xor 4 a b,
  )

-- `sign` is the leading digit.
pub sign-bit :
    (w : Width) (v : ℕ) → v < 2 ^ bits w → (sign v (bits w) ≡ true) ↔ (2 ^ (bits w - 1) ≤ v)
unfolding sign
sign-bit byte v h = ground arith
sign-bit word v h = ground arith
sign-bit dword v h = ground arith

pub sign-ge : (w : Width) (v : ℕ) → (sign v (bits w) ≡ true) ↔ (2 ^ (bits w - 1) ≤ v)
unfolding sign
sign-ge byte v = ground arith
sign-ge word v = ground arith
sign-ge dword v = ground arith

parity_loop-ones : (left i v c : ℕ) → parity_loop left i v c + ones i v ≡ c + ones (i + left) v
unfolding parity_loop ones
parity_loop-ones zero i v c = rw add-zero
parity_loop-ones (suc left) i v c = ground (
  arith,
  bit_and-low 1 (v / 2 ^ i),
  ones-next,
  ap (λ (n : ℕ). ones n v) along,
  parity_loop-ones left (i + 1) v c,
  parity_loop-ones left (i + 1) v (c + 1),
)
  where
    ones-next : ones (i + 1) v ≡ ones i v + bit i v
    ones-next = rw add-one

    along : i + 1 + left ≡ i + suc left
    along = omega arith

-- The digits of a byte are those of the number that it was cut from.
bit-low : (k v : ℕ) → k < 8 → bit k (v % 2 ^ 8) ≡ bit k v
bit-low zero v h = omega arith
bit-low (suc zero) v h = omega arith
bit-low (suc (suc zero)) v h = omega arith
bit-low (suc (suc (suc zero))) v h = omega arith
bit-low (suc (suc (suc (suc zero)))) v h = omega arith
bit-low (suc (suc (suc (suc (suc zero))))) v h = omega arith
bit-low (suc (suc (suc (suc (suc (suc zero)))))) v h = omega arith
bit-low (suc (suc (suc (suc (suc (suc (suc zero))))))) v h = omega arith
bit-low (suc (suc (suc (suc (suc (suc (suc (suc k)))))))) v h = absurd (omega arith)

ones-low : (k v : ℕ) → k ≤ 8 → ones k (v % 2 ^ 8) ≡ ones k v
unfolding ones
ones-low zero v h = refl
ones-low (suc k) v h =
    rw (ones-low k v (omega arith)) (ap (λ (d : ℕ). ones k v + d) (bit-low k v (omega arith)))

-- For every number parity, the loop over eight bits, returns true exactly if the number of ones
-- among the low eight bits is even.
pub parity-even : (v : ℕ) → (parity v ≡ true) ↔ (ones 8 v % 2 ≡ 0)
unfolding parity
parity-even v = ground (
  arith,
  counted,
  none_yet,
  ap (λ (n : ℕ). ones 8 n) (bit_and-low 8 v),
  ones-low 8 v (omega arith),
)
  where
    counted : parity_loop 8 0 (bit_and v 0xFF) 0 + ones 0 (bit_and v 0xFF) ≡ ones 8 (bit_and v 0xFF)
    counted = parity_loop-ones 8 0 (bit_and v 0xFF) 0 ∙ zero-add _

    none_yet : ones 0 (bit_and v 0xFF) ≡ 0
    none_yet = unfold ones in refl
