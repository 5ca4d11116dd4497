-- ===== src/Flags/Tests.antt =====
-- The theorems on the flags at sample numbers.
use vm_i386_32bit.Base.{◌%◌, ◌≡◌, ◌↔◌, arith, true, false}
use vm_i386_32bit.Base.Int.{Fits, signed, ◌+ℤ◌}
use vm_i386_32bit.Flags.{overflow, parity}
use vm_i386_32bit.Flags.Meaning.{byte, ones, overflow-add, parity-even}

-- 0x7F + 1 overflows a byte.
overflow-add_example : (overflow 0x7F 1 0x80 8 ≡ false) ↔ Fits 8 (signed 8 0x7F +ℤ signed 8 1)
overflow-add_example = overflow-add 0x7F 1 byte (omega arith) (omega arith)

parity-even_example : (parity 0x103 ≡ true) ↔ (ones 8 0x103 % 2 ≡ 0)
parity-even_example = parity-even 0x103
