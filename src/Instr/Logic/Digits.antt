-- ===== src/Instr/Logic/Digits.antt =====
-- The three operations on the digits of numbers of a given width.
use vm_i386_32bit.Base.{
  ℕ, ◌+◌, ◌%◌, ◌^◌, ◌<◌, ◌≡◌, refl, arith, bit_and, bit_or, bit_xor, min, max, bit, bit-bit_and,
  bit-bit_or, bit-bit_xor, bit_and-le, bit_or-lt, bit_xor-lt, bit_and-low, eq_of_bits,
}
use vm_i386_32bit.Flags.Meaning.{Width, bits, bytes, byte, word, dword}
use vm_i386_32bit.Instr.Arith.{masked}

-- `f` acts on each digit as `g` does, and does not leave the width.
pub record Digitwise (w : Width) (f g : ℕ → ℕ → ℕ) : Type 0 where
  pub digit : (k x y : ℕ) → bit k (f x y) ≡ g (bit k x) (bit k y)
  pub small : (x y : ℕ) → x < 2 ^ bits w → y < 2 ^ bits w → f x y < 2 ^ bits w

-- The sum of two digits without its carry.
abbrev pub differ : ℕ → ℕ → ℕ
differ x y = (x + y) % 2

pub bit_and-Digitwise : (w : Width) → Digitwise w bit_and min
bit_and-Digitwise w = record {
  digit = bit-bit_and;
  small = λ x y p q. omega (arith, bit_and-le x y);
}

pub bit_or-Digitwise : (w : Width) → Digitwise w bit_or max
bit_or-Digitwise w = record { digit = bit-bit_or; small = bit_or-lt (bits w) }

pub bit_xor-Digitwise : (w : Width) → Digitwise w bit_xor differ
bit_xor-Digitwise w = record { digit = bit-bit_xor; small = bit_xor-lt (bits w) }

pub masked-small : (w : Width) (b : ℕ) → b < 2 ^ bits w → masked (bytes w) b ≡ b
masked-small byte b h = omega (arith, bit_and-low 8 b)
masked-small word b h = omega (arith, bit_and-low 16 b)
masked-small dword b h = refl

-- A number differs from itself in no digit.
pub bit_xor-same : (w : Width) (x : ℕ) → x < 2 ^ bits w → bit_xor x x ≡ 0
bit_xor-same w x h =
    eq_of_bits (bits w) (bit_xor x x) 0 (bit_xor-lt (bits w) x x h h) (ground arith)
      (λ k p. omega (arith, bit-bit_xor k x x, none k))
  where
    none : (k : ℕ) → bit k 0 ≡ 0
    none k = omega (arith, bit-bit_and k 0 0)
