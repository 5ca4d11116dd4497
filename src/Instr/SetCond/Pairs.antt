-- ===== src/Instr/SetCond/Pairs.antt =====
-- The byte-setting instructions against the jumps on the same condition.
use vm_i386_32bit.Base.{ℕ, ◌≡◌, arith, Bool, true, false, some, ◌⊎◌, if◌then◌else◌}
use vm_i386_32bit.Flags.{cf, zf, sf, of}
use vm_i386_32bit.Flags.Meaning.{byte}
use vm_i386_32bit.Machine.{Cpu, Var, set_var, flag, store}
use vm_i386_32bit.Operand.{Insn, op_imm, advance}
use vm_i386_32bit.Operand.Laws.{place_of-register}
use vm_i386_32bit.Instr.Handler.{Handler}
use vm_i386_32bit.Instr.Jump.{jg_i, jna_i, jnle_i}
use vm_i386_32bit.Instr.Jump.Pairs.{Jumps, Falls, jump_if-Jumps, jump_if-Falls}
use vm_i386_32bit.Instr.SetCond.{set_if, setg_i, setna_i, setnle_i}
use vm_i386_32bit.Instr.Arith.Registers.{IsRegister, merge, advance-var}

-- The instruction puts the byte `x` into the register `v`, and moves EIP.
abbrev pub Sets : Handler → ℕ → Var → Insn → Cpu → Type 0
Sets s x v insn c = s insn c ≡ some (set_var v (merge byte (c.var v) x) (advance insn c), 0)

-- The one sets the byte to 1 where the other jumps, and to 0 where it falls through.
pub record Agree (s j : Handler) (v : Var) (si ji : Insn) (c : Cpu) : Type 0 where
  pub outcome : (Sets s 1 v si c × Jumps j ji c) ⊎ (Sets s 0 v si c × Falls j ji c)

set_if-Sets :
    (p : Cpu → Bool) (b : Bool) {v : Var} (insn : Insn) (c : Cpu)
    → IsRegister byte v insn.op1
    → p (advance insn c) ≡ b
    → Sets (set_if p) (if b then 1 else 0) v insn c
unfolding set_if store
set_if-Sets p b {v} insn c dst e = rw (
  place_of-register insn.op1 v (advance insn c) dst.kind dst.variable,
  advance-var insn c v dst.not_eip,
  e,
)

-- With ZF set, SF equal to OF and CF clear, for an 8-bit register as the operand of the
-- byte-setting instruction and an immediate as that of the jump, SETG sets the byte to 1 where JG
-- falls through, and SETNA sets it to 0 where JNA jumps.
pub setg_i-differs :
    (v : Var) (si ji : Insn) (c : Cpu)
    → IsRegister byte v si.op1
    → ji.op1.kind ≡ op_imm
    → flag zf c ≡ true
    → flag sf c ≡ flag of c
    → flag cf c ≡ false
    → Sets setg_i 1 v si c × Falls jg_i ji c × Sets setna_i 0 v si c × Jumps jna_i ji c
unfolding setg_i setna_i jg_i jna_i advance
setg_i-differs v si ji c dst direct z so k = (
  set_if-Sets _ true si c dst (ground arith),
  jump_if-Falls _ ji c direct (ground arith),
  set_if-Sets _ false si c dst (ground arith),
  jump_if-Jumps _ ji c direct (ground arith),
)

-- With ZF clear and SF equal to OF, for an 8-bit register as the operand of SETNLE and an
-- immediate as that of JNLE, SETNLE sets the byte to 0 where JNLE jumps.
pub setnle_i-differs :
    (v : Var) (si ji : Insn) (c : Cpu)
    → IsRegister byte v si.op1
    → ji.op1.kind ≡ op_imm
    → flag zf c ≡ false
    → flag sf c ≡ flag of c
    → Sets setnle_i 0 v si c × Jumps jnle_i ji c
unfolding setnle_i jnle_i advance
setnle_i-differs v si ji c dst direct z so =
    (set_if-Sets _ false si c dst (ground arith), jump_if-Jumps _ ji c direct (ground arith))
