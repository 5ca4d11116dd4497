-- ===== src/Instr/Move/Tests.antt =====
-- The theorems on the data movement instructions at sample instructions.
use vm_i386_32bit.Base.{ℕ, ◌≤◌, ◌<◌, ◌≡◌, ◌⊎◌, refl, arith, some}
use vm_i386_32bit.Base.Int.{negsuc, signed}
use vm_i386_32bit.Flags.Meaning.{byte, dword}
use vm_i386_32bit.Machine.{Cpu, ebx, ecx, eip, load}
use vm_i386_32bit.Machine.Memory.{peek}
use vm_i386_32bit.Machine.Registers.{regs, regs_size, reg_val}
use vm_i386_32bit.Operand.{Insn, advance, eff_addr, source_value32}
use vm_i386_32bit.Instr.Move.{mov_i, movsx_i, xchg_i}
use vm_i386_32bit.Instr.Move.Registers.{Swaps, xchg_i-Swaps}
use vm_i386_32bit.Instr.Move.Memory.{stored, mov_i-memory, mov_i-read_back}
use vm_i386_32bit.Instr.Move.Extend.{movsx_i-signed}
use vm_i386_32bit.Instr.Samples.{ebx-IsRegister, ecx-IsRegister}
use vm_i386_32bit.Examples.{start, register, immediate, memory, instruction}

-- `mov byte ptr [ebp - 0x10], 5`, `mov ecx, [ebp - 0x10]`, and moves of AL into ECX; EBP is 0xFFF00010.
abbrev store_byte_insn : Insn
store_byte_insn = instruction 4 (memory 20 0xFFFFFFF0 1) (immediate 5 1)

abbrev fetch_insn : Insn
fetch_insn = instruction 3 (register 22 4) (memory 20 0xFFFFFFF0 4)

abbrev extend_insn : Insn
extend_insn = instruction 3 (register 22 4) (register 2 1)

abbrev exchange_insn : Insn
exchange_insn = instruction 2 (register 21 4) (register 22 4)

-- The three bytes behind the operand are written, too.
mov_i-memory_example :
    (d : Cpu) × (mov_i store_byte_insn start ≡ some (d, 0))
    × (peek 4 0xFFF00000 d.mem ≡ 5)
    × ((i : ℕ) → (i < 0xFFF00000) ⊎ (0xFFF00004 ≤ i) → d.mem i ≡ start.mem i)
unfolding eff_addr advance source_value32 reg_val regs regs_size load
mov_i-memory_example = mov_i-memory store_byte_insn start 0xFFF00000 5 refl refl (omega arith) refl

mov_i-read_back_example :
    (mov_i store_byte_insn start ≡ some (stored store_byte_insn 0xFFF00000 5 start, 0))
    × (d : Cpu) × (mov_i fetch_insn (stored store_byte_insn 0xFFF00000 5 start) ≡ some (d, 0))
    × (d.var ecx ≡ 5)
unfolding eff_addr advance source_value32 reg_val regs regs_size load
mov_i-read_back_example =
    mov_i-read_back store_byte_insn start 0xFFF00000 5 refl refl (omega arith) refl fetch_insn
      ecx-IsRegister (omega arith) refl refl

-- AL is 0xF0, which is -16.
movsx_i-signed_example :
    (d : Cpu) × (movsx_i extend_insn start ≡ some (d, 0))
    × (signed 32 (d.var ecx) ≡ negsuc 15)
    × (d.var eip ≡ 0x8048003)
    × (d.mem ≡ start.mem)
unfolding advance source_value32 reg_val regs regs_size load
movsx_i-signed_example =
    movsx_i-signed byte extend_insn start 0xF0 (omega arith) ecx-IsRegister refl (omega arith) refl

xchg_i-Swaps_example :
    (d : Cpu) × (xchg_i exchange_insn start ≡ some (d, 0))
    × Swaps dword ebx ecx exchange_insn start d
xchg_i-Swaps_example = xchg_i-Swaps exchange_insn start ebx-IsRegister ecx-IsRegister refl
