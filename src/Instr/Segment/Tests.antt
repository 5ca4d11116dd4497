-- ===== src/Instr/Segment/Tests.antt =====
-- The theorems on SGDT, LGDT and BOUND at sample instructions; EBP is 0xFFF00010.
use vm_i386_32bit.Base.{ℕ, ◌≤◌, ◌≡◌, ◌↔◌, ◌⊎◌, refl, arith, some}
use vm_i386_32bit.Machine.{Cpu, eax, load}
use vm_i386_32bit.Machine.Memory.{peek, poke}
use vm_i386_32bit.Machine.Registers.{regs, regs_size, reg_val}
use vm_i386_32bit.Operand.{Insn, advance, eff_addr}
use vm_i386_32bit.Instr.Handler.{minus}
use vm_i386_32bit.Instr.Segment.{sgdt_i, lgdt_i, bound_i}
use vm_i386_32bit.Instr.Segment.Trips.{table_at, sgdt_i-lgdt_i, bound_i-code}
use vm_i386_32bit.Instr.Samples.{eax-IsRegister}
use vm_i386_32bit.Examples.{start, register, memory, nothing, instruction}

-- The operand is at 0xFFF00000.
abbrev table_insn : Insn
table_insn = instruction 3 (memory 20 0xFFFFFFF0 4) nothing

abbrev kept_table : Cpu
kept_table = record start { mem = table_at 0xFFF00000 start.gdtr start.mem }

sgdt_i-lgdt_i_example :
    (e : Cpu) × (sgdt_i table_insn start ≡ some (e, 0))
    × (e.mem ≡ table_at 0xFFF00000 start.gdtr start.mem)
    × (lgdt_i table_insn kept_table
        ≡ some (
          record (advance table_insn kept_table) { gdtr = record { limit = 90; base = 0xFFF000 } },
          0,
        ))
unfolding eff_addr reg_val regs regs_size load advance
sgdt_i-lgdt_i_example =
    sgdt_i-lgdt_i table_insn table_insn start kept_table 0xFFF00000 refl (omega arith) refl refl

-- The bounds are 0x10 and 0xFFFFFFFF, and EAX is 0xFFFFFFF0.
abbrev bound_insn : Insn
bound_insn = instruction 3 (register 19 4) (memory 20 0xFFFFFFF0 4)

abbrev bounds : Cpu
bounds = record start { mem = poke 4 0xFFF00004 0xFFFFFFFF (poke 4 0xFFF00000 0x10 start.mem) }

bound_i-code_example :
    (code : ℕ) × (bound_i bound_insn bounds ≡ some (advance bound_insn bounds, code))
    × ((code ≡ 0) ↔ (
        (peek 4 0xFFF00000 bounds.mem ≤ 0xFFFFFFF0) × (0xFFFFFFF0 ≤ peek 4 0xFFF00004 bounds.mem)))
    × ((code ≡ 0) ⊎ (code ≡ minus 5))
unfolding eff_addr reg_val regs regs_size load advance
bound_i-code_example =
    bound_i-code bound_insn eax bounds 0xFFF00000 eax-IsRegister refl refl (omega arith)
      (omega arith)
