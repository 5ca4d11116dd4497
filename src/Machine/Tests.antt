-- ===== src/Machine/Tests.antt =====
-- The theorem on the stack's accessors at a sample address.
use vm_i386_32bit.Base.{ℕ, ◌≤◌, ◌<◌, ◌≡◌, ◌⊎◌, arith, some}
use vm_i386_32bit.Machine.{Cpu, read32, write32}
use vm_i386_32bit.Machine.Memory.{read32-write32}
use vm_i386_32bit.Examples.{start}

read32-write32_example :
    (d : Cpu) × (write32 0xFFEFFFFC 0x12345678 start ≡ some d)
    × (read32 0xFFEFFFFC d ≡ some 0x12345678)
    × ((b : ℕ) → (b < 0xFFEFFFFC) ⊎ (0xFFF00000 ≤ b) → d.mem b ≡ start.mem b)
read32-write32_example = read32-write32 0xFFEFFFFC 0x12345678 start (λ b. omega arith) (omega arith)
