-- ===== src/Invariant/SignedMul.antt =====
-- IMUL and IDIV.
use vm_i386_32bit.Base.{ℕ, ◌≤◌, Bool, arith, bit_and, bit_and-low}
use vm_i386_32bit.Machine.{Cpu}
use vm_i386_32bit.Machine.State.{IsCpu}
use vm_i386_32bit.Operand.{Operand}
use vm_i386_32bit.Invariant.Rules.{Gives, Keeps, Runs}
use vm_i386_32bit.Invariant.Access.{IsWord, keeps_rules, put-IsCpu}
use vm_i386_32bit.Base.Int.{ℤ, pos, negsuc}
use vm_i386_32bit.Instr.SignedMul.{
  wrap, idiv8, idiv16, idiv32, idiv_i, imul_flags, imul_byte, imul_word, imul_long, imul_two,
  imul_three, imul_twice, imul_assign, imul_i,
}
use vm_i386_32bit.Invariant.Accumulator.{byte_rules}

wrap-IsWord : (z : ℤ) → IsWord (wrap 32 z)
wrap-IsWord (pos n) = omega arith
wrap-IsWord (negsuc n) = omega arith

idiv8-Runs : (val : ℕ) (c : Cpu) → IsCpu c → Runs (idiv8 val c)
unfolding idiv8
idiv8-Runs val c ok = search byte_rules depth 20

idiv16-Runs : (val : ℕ) (c : Cpu) → IsCpu c → Runs (idiv16 val c)
unfolding idiv16
idiv16-Runs val c ok = search keeps_rules depth 20

idiv32-Runs : (val : ℕ) (c : Cpu) → IsCpu c → Runs (idiv32 val c)
unfolding idiv32
idiv32-Runs val c ok = search (keeps_rules, wrap-IsWord) depth 20

pub idiv_i-Keeps : Keeps idiv_i
unfolding idiv_i
idiv_i-Keeps insn c ok = search (keeps_rules, idiv8-Runs, idiv16-Runs, idiv32-Runs) depth 30

imul_flags-IsCpu : (fits : Bool) (c : Cpu) → IsCpu c → IsCpu (imul_flags fits c)
unfolding imul_flags
imul_flags-IsCpu fits c ok = search put-IsCpu

mask-IsWord : (x : ℕ) → IsWord (bit_and x 0xFFFFFFFF)
mask-IsWord x = omega (arith, bit_and-low 32 x)

ruleset imul_rules = (keeps_rules, imul_flags-IsCpu)

imul_byte-IsCpu : (op : Operand) (c : Cpu) → IsCpu c → Gives IsCpu (imul_byte op c)
unfolding imul_byte
imul_byte-IsCpu op c ok = search imul_rules depth 20

imul_word-IsCpu : (op : Operand) (c : Cpu) → IsCpu c → Gives IsCpu (imul_word op c)
unfolding imul_word
imul_word-IsCpu op c ok = search imul_rules depth 20

imul_long-IsCpu : (op : Operand) (c : Cpu) → IsCpu c → Gives IsCpu (imul_long op c)
unfolding imul_long
imul_long-IsCpu op c ok = search (imul_rules, mask-IsWord) depth 20

imul_two-IsCpu :
    (w : ℕ) (op1 op2 : Operand) (c : Cpu) → w ≤ 4 → IsCpu c → Gives IsCpu (imul_two w op1 op2 c)
unfolding imul_two
imul_two-IsCpu w op1 op2 c h ok = search imul_rules depth 20

imul_three-IsCpu :
    (w imm : ℕ) (op1 op2 : Operand) (c : Cpu)
    → w ≤ 4
    → IsCpu c
    → Gives IsCpu (imul_three w imm op1 op2 c)
unfolding imul_three
imul_three-IsCpu w imm op1 op2 c h ok = search imul_rules depth 20

imul_twice-IsCpu :
    (w imm : ℕ) (op1 : Operand) (c : Cpu) → w ≤ 4 → IsCpu c → Gives IsCpu (imul_twice w imm op1 c)
unfolding imul_twice
imul_twice-IsCpu w imm op1 c h ok = search imul_rules depth 20

imul_assign-IsCpu :
    (w imm : ℕ) (op1 : Operand) (c : Cpu) → w ≤ 4 → IsCpu c → Gives IsCpu (imul_assign w imm op1 c)
unfolding imul_assign
imul_assign-IsCpu w imm op1 c h ok = search imul_rules depth 20

pub imul_i-Keeps : Keeps imul_i
unfolding imul_i
imul_i-Keeps insn c ok =
    search
      (
        keeps_rules, imul_byte-IsCpu, imul_word-IsCpu, imul_long-IsCpu, imul_two-IsCpu,
        imul_three-IsCpu, imul_twice-IsCpu, imul_assign-IsCpu,
      )
      depth 30
