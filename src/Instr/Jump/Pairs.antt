-- ===== src/Instr/Jump/Pairs.antt =====
-- The conditional jumps against one another.
use vm_i386_32bit.Base.{◌≡◌, arith, Bool, true, false, not, some, ◌⊎◌, ◌&&◌, same_bool}
use vm_i386_32bit.Flags.{zf, sf, of}
use vm_i386_32bit.Machine.{Cpu, set_var, flag, eip, u32}
use vm_i386_32bit.Operand.{Insn, op_imm, advance, target_value}
use vm_i386_32bit.Instr.Handler.{Handler}
use vm_i386_32bit.Instr.Jump.{jump_if, jle_i}

-- The machine with EIP at the immediate target, and with EIP behind the instruction.
abbrev pub jumped : Insn → Cpu → Cpu
jumped insn c = set_var eip (u32 insn.op1.imm) (advance insn c)

abbrev pub Jumps : Handler → Insn → Cpu → Type 0
Jumps h insn c = h insn c ≡ some (jumped insn c, 0)

abbrev pub Falls : Handler → Insn → Cpu → Type 0
Falls h insn c = h insn c ≡ some (advance insn c, 0)

-- Of two handlers one jumps where the other falls through.
pub record Opposite (h k : Handler) (insn : Insn) (c : Cpu) : Type 0 where
  pub outcome : (Jumps h insn c × Falls k insn c) ⊎ (Falls h insn c × Jumps k insn c)

module _ (p : Cpu → Bool) (insn : Insn) (c : Cpu) (direct : insn.op1.kind ≡ op_imm) where
  target_value-imm : target_value insn.op1 (advance insn c) ≡ some (u32 insn.op1.imm)
  unfolding target_value
  target_value-imm = ground arith

  pub jump_if-Jumps : p (advance insn c) ≡ true → Jumps (jump_if p) insn c
  unfolding jump_if
  jump_if-Jumps e = rw (e, target_value-imm)

  pub jump_if-Falls : p (advance insn c) ≡ false → Falls (jump_if p) insn c
  unfolding jump_if
  jump_if-Falls e = rw e

-- With ZF clear JLE with an immediate operand falls through, also where SF differs from OF.
pub jle_i-not_zero :
    (insn : Insn) (c : Cpu)
    → insn.op1.kind ≡ op_imm
    → flag zf (advance insn c) ≡ false
    → Falls jle_i insn c
unfolding jle_i
jle_i-not_zero insn c direct z =
    jump_if-Falls (λ d. flag zf d && not (same_bool (flag sf d) (flag of d))) insn c direct (rw z)
