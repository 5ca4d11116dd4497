-- ===== src/Flags.antt =====
-- src/flags.c and lib/flags.h: the EFLAGS register and the tests from which the instructions set
-- its bits. A shift by a base outside 1..32 is undefined in C; the theorems take 8, 16 and 32.
pub mod Laws
pub mod Meaning
mod Tests
use vm_i386_32bit.Base.{
  ℕ, zero, suc, ◌+◌, ◌-◌, ◌/◌, ◌%◌, ◌^◌, bit_and, bit_or, bit_xor, Bool, not, ◌==◌, if◌then◌else◌,
}

-- The single bits of the register that the sources name: CF, PF, AF, ZF, SF, TF, IF, DF and OF.
pub data Flag : Type 0 where
  cf pf af zf sf tf intf df of : Flag

-- The bit masks of lib/flags.h.
abbrev pub mask : Flag → ℕ
mask cf = 0x1
mask pf = 0x4
mask af = 0x10
mask zf = 0x40
mask sf = 0x80
mask tf = 0x100
mask intf = 0x200
mask df = 0x400
mask of = 0x800

-- `eflags |= f`
unfoldable pub set_flag : Flag → ℕ → ℕ
set_flag f eflags = bit_or eflags (mask f)

-- `eflags &= ~f`, where `~f` is taken on 32 bits
unfoldable pub clear_flag : Flag → ℕ → ℕ
clear_flag f eflags = bit_and eflags (2 ^ 32 - 1 - mask f)

-- `eflags ^= f`
unfoldable pub complement_flag : Flag → ℕ → ℕ
complement_flag f eflags = bit_xor eflags (mask f)

unfoldable pub test_flag : Flag → ℕ → Bool
test_flag f eflags = not (bit_and eflags (mask f) == 0)

-- `cond ? set_Flag(f) : clear_Flag(f)`, the statement by which the instructions write a flag
unfoldable pub put_flag : Flag → Bool → ℕ → ℕ
put_flag f b eflags = if b then set_flag f eflags else clear_flag f eflags

-- flags.c's `zero`
unfoldable pub zero_test : ℕ → Bool
zero_test v = v == 0

unfoldable pub sign : ℕ → ℕ → Bool
sign v base = not (v / 2 ^ (base - 1) == 0)

unfoldable pub overflow : (op1 op2 res base : ℕ) → Bool
overflow op1 op2 res base =
    not (bit_and (bit_and (bit_xor op1 res) (bit_xor op2 res) / 2 ^ (base - 1)) 1 == 0)

-- The loop of `parity` at bit `i`, with `left` bits to go and `c` ones counted.
unfoldable pub parity_loop : (left i v c : ℕ) → ℕ
parity_loop zero i v c = c
parity_loop (suc left) i v c =
    parity_loop left (i + 1) v (if bit_and (v / 2 ^ i) 1 == 0 then c else c + 1)

unfoldable pub parity : ℕ → Bool
parity vv = parity_loop 8 0 (bit_and vv 0xFF) 0 % 2 == 0

unfoldable pub adjust : (op1 op2 res : ℕ) → Bool
adjust op1 op2 res = not (bit_and (bit_xor (bit_xor op1 op2) res) 0x10 == 0)
