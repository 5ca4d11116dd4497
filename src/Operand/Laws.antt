-- ===== src/Operand/Laws.antt =====
-- What the operand readers of the handlers return.
use native.Mathlib.Decide.{dec_lt}
use vm_i386_32bit.Base.{ℕ, ◌≡◌, some, none, ltb, arith, false, get_or-outside}
use vm_i386_32bit.Machine.{Cpu, Var, in_var}
use vm_i386_32bit.Machine.Registers.{regs, regs_table}
use vm_i386_32bit.Operand.{Operand, op_reg, reg_place, place_of}

pub place_of-register :
    (op : Operand) (v : Var) (c : Cpu)
    → op.kind ≡ op_reg
    → regs op.reg ≡ some v
    → place_of op c ≡ some (in_var v)
unfolding place_of reg_place
place_of-register op v c kind variable = rw (kind, variable)

-- A register that has a variable lies in the table.
pub regs-inside : (r : ℕ) (v : Var) → regs r ≡ some v → ltb 49 r ≡ false
unfolding regs
regs-inside r v h = elim (dec_lt 49 r) [
  | yes p ↦ let e = get_or-outside regs_table r none p in cc
  | no p ↦ ground arith
]
