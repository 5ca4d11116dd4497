-- ===== src/Invariant/Stack.antt =====
-- The stack and the calls.
use vm_i386_32bit.Base.{ℕ, zero, suc}
use vm_i386_32bit.Machine.{Cpu, Var, esp}
use vm_i386_32bit.Machine.State.{IsCpu}
use vm_i386_32bit.Operand.{Operand}
use vm_i386_32bit.Invariant.Rules.{Gives, gives, Gives-kind, Gives-read, Keeps, set_var-IsCpu}
use vm_i386_32bit.Invariant.Access.{
  IsWord, keeps_rules, target_value-IsWord, read16-IsWord, read32-IsWord, u32-IsWord,
}
use vm_i386_32bit.Instr.Stack.{
  esp_down, esp_up, push32, push16, pop32, pop16, push_i, pop_register, pop_memory, pop_operand,
  pop_i, call_i, ret_i, leave_i, enter_loop, enter_i, pushad_i, popad_i, pusha_i, popa_i, pushf_i,
  pushfd_i, popf_i, popfd_i,
}

esp_down-IsCpu : (k : ℕ) (c : Cpu) → IsCpu c → IsCpu (esp_down k c)
esp_down-IsCpu k c ok = set_var-IsCpu esp _ c (u32-IsWord _) ok

esp_up-IsCpu : (k : ℕ) (c : Cpu) → IsCpu c → IsCpu (esp_up k c)
esp_up-IsCpu k c ok = set_var-IsCpu esp _ c (u32-IsWord _) ok

-- A register read by itself.
var-IsWord : (v : Var) (c : Cpu) → IsCpu c → IsWord (c.var v)
var-IsWord v c ok = ok.words v

ruleset stack_rules = (
  keeps_rules, esp_down-IsCpu, esp_up-IsCpu, var-IsWord, Gives-read, read16-IsWord, read32-IsWord,
)

push32-IsCpu : (x : ℕ) (c : Cpu) → IsCpu c → Gives IsCpu (push32 x c)
unfolding push32
push32-IsCpu x c ok = search stack_rules

push16-IsCpu : (x : ℕ) (c : Cpu) → IsCpu c → Gives IsCpu (push16 x c)
unfolding push16
push16-IsCpu x c ok = search stack_rules

pop32-IsCpu : (v : Var) (c : Cpu) → IsCpu c → Gives IsCpu (pop32 v c)
unfolding pop32
pop32-IsCpu v c ok = search stack_rules

pop16-IsCpu : (v : Var) (c : Cpu) → IsCpu c → Gives IsCpu (pop16 v c)
unfolding pop16
pop16-IsCpu v c ok = search stack_rules depth 10

ruleset push_rules = (keeps_rules, push32-IsCpu, push16-IsCpu)

ruleset pop_rules = (keeps_rules, esp_up-IsCpu, pop32-IsCpu, pop16-IsCpu)

pub push_i-Keeps : Keeps push_i
unfolding push_i
push_i-Keeps insn c ok = search push_rules depth 30

pub pushad_i-Keeps : Keeps pushad_i
unfolding pushad_i
pushad_i-Keeps insn c ok = search push_rules depth 30

pub pusha_i-Keeps : Keeps pusha_i
unfolding pusha_i
pusha_i-Keeps insn c ok = search push_rules depth 30

pub pushf_i-Keeps : Keeps pushf_i
unfolding pushf_i
pushf_i-Keeps insn c ok = search push_rules depth 30

pub pushfd_i-Keeps : Keeps pushfd_i
unfolding pushfd_i
pushfd_i-Keeps insn c ok = search push_rules depth 30

pub popad_i-Keeps : Keeps popad_i
unfolding popad_i
popad_i-Keeps insn c ok = search pop_rules depth 30

pub popa_i-Keeps : Keeps popa_i
unfolding popa_i
popa_i-Keeps insn c ok = search pop_rules depth 30

pub popf_i-Keeps : Keeps popf_i
unfolding popf_i
popf_i-Keeps insn c ok = search pop_rules depth 30

pub popfd_i-Keeps : Keeps popfd_i
unfolding popfd_i
popfd_i-Keeps insn c ok = search pop_rules depth 30

pop_register-IsCpu : (op : Operand) (c : Cpu) → IsCpu c → Gives IsCpu (pop_register op c)
unfolding pop_register
pop_register-IsCpu op c ok = search pop_rules depth 10

pop_memory-IsCpu : (op : Operand) (c : Cpu) → IsCpu c → Gives IsCpu (pop_memory op c)
unfolding pop_memory
pop_memory-IsCpu op c ok = search pop_rules depth 10

pop_operand-IsCpu : (op : Operand) (c : Cpu) → IsCpu c → Gives IsCpu (pop_operand op c)
unfolding pop_operand
pop_operand-IsCpu op c ok =
    Gives-kind op.kind (gives ok) (pop_register-IsCpu op c ok) (gives ok) (pop_memory-IsCpu op c ok)

pub pop_i-Keeps : Keeps pop_i
unfolding pop_i
pop_i-Keeps insn c ok = search (keeps_rules, pop_operand-IsCpu) depth 30

pub call_i-Keeps : Keeps call_i
unfolding call_i
call_i-Keeps insn c ok = search (push_rules, Gives-read, target_value-IsWord) depth 30

pub ret_i-Keeps : Keeps ret_i
unfolding ret_i
ret_i-Keeps insn c ok = search stack_rules depth 30

pub leave_i-Keeps : Keeps leave_i
unfolding leave_i
leave_i-Keeps insn c ok = search stack_rules depth 30

enter_loop-IsCpu : (left : ℕ) (c : Cpu) → IsCpu c → Gives IsCpu (enter_loop left c)
unfolding enter_loop
enter_loop-IsCpu zero c ok = gives ok
enter_loop-IsCpu (suc left) c ok = search (push_rules, enter_loop-IsCpu left) depth 10

pub enter_i-Keeps : Keeps enter_i
unfolding enter_i
enter_i-Keeps insn c ok = search (push_rules, esp_down-IsCpu, enter_loop-IsCpu, var-IsWord) depth 30
