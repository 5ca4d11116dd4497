-- ===== src/Invariant/Strings.antt =====
-- The string instructions.
use vm_i386_32bit.Base.{ℕ, ◌≤◌}
use vm_i386_32bit.Machine.{Cpu, Var}
use vm_i386_32bit.Machine.State.{IsCpu}
use vm_i386_32bit.Operand.{Insn}
use vm_i386_32bit.Invariant.Rules.{Gives, Keeps, if-IsCpu, advance-IsCpu, set_var-IsCpu}
use vm_i386_32bit.Invariant.Access.{keeps_rules, u32-IsWord}
use vm_i386_32bit.Instr.Strings.{
  step_index, move_string, movs_i, count_down, rep_movs_i, store_string, stos_i, rep_stos_i,
  rep_ins_i, rep_outs_i, load_string, lods_i, lodsb_i, lodsw_i, lodsd_i, compare_string, cmpsb_i,
  cmpsw_i, cmpsd_i, scas_i,
}
use vm_i386_32bit.Invariant.Arith.{put_flags-IsCpu}

step_index-IsCpu : (v : Var) (w : ℕ) (c : Cpu) → IsCpu c → IsCpu (step_index v w c)
unfolding step_index
step_index-IsCpu v w c ok = set_var-IsCpu v _ c (u32-IsWord _) ok

count_down-IsCpu : (insn : Insn) (c : Cpu) → IsCpu c → IsCpu (count_down insn c)
unfolding count_down
count_down-IsCpu insn c ok = search (if-IsCpu, advance-IsCpu, set_var-IsCpu, u32-IsWord) depth 10

ruleset string_rules = (keeps_rules, step_index-IsCpu, count_down-IsCpu, put_flags-IsCpu)

move_string-IsCpu : (w : ℕ) (c : Cpu) → IsCpu c → Gives IsCpu (move_string w c)
unfolding move_string
move_string-IsCpu w c ok = search string_rules depth 10

store_string-IsCpu : (w base : ℕ) (c : Cpu) → IsCpu c → Gives IsCpu (store_string w base c)
unfolding store_string
store_string-IsCpu w base c ok = search string_rules depth 10

load_string-IsCpu : (w a : ℕ) (c : Cpu) → w ≤ 4 → IsCpu c → Gives IsCpu (load_string w a c)
unfolding load_string
load_string-IsCpu w a c h ok = search string_rules depth 10

compare_string-IsCpu : (w : ℕ) (c : Cpu) → IsCpu c → Gives IsCpu (compare_string w c)
unfolding compare_string
compare_string-IsCpu w c ok = search string_rules depth 10

pub movs_i-Keeps : Keeps movs_i
unfolding movs_i
movs_i-Keeps insn c ok = search (string_rules, move_string-IsCpu) depth 30

pub rep_movs_i-Keeps : Keeps rep_movs_i
unfolding rep_movs_i
rep_movs_i-Keeps insn c ok = search (string_rules, move_string-IsCpu) depth 30

pub stos_i-Keeps : (code : ℕ) → Keeps (stos_i code)
unfolding stos_i
stos_i-Keeps code insn c ok = search (string_rules, store_string-IsCpu) depth 20

pub rep_stos_i-Keeps : Keeps rep_stos_i
unfolding rep_stos_i
rep_stos_i-Keeps insn c ok = search (string_rules, store_string-IsCpu) depth 30

pub rep_ins_i-Keeps : Keeps rep_ins_i
unfolding rep_ins_i
rep_ins_i-Keeps insn c ok = search keeps_rules depth 30

pub rep_outs_i-Keeps : Keeps rep_outs_i
unfolding rep_outs_i
rep_outs_i-Keeps insn c ok = search keeps_rules depth 30

pub lods_i-Keeps : Keeps lods_i
unfolding lods_i
lods_i-Keeps insn c ok = search (string_rules, load_string-IsCpu) depth 30

pub lodsb_i-Keeps : Keeps lodsb_i
unfolding lodsb_i
lodsb_i-Keeps insn c ok = search (string_rules, load_string-IsCpu) depth 30

pub lodsw_i-Keeps : Keeps lodsw_i
unfolding lodsw_i
lodsw_i-Keeps insn c ok = search (string_rules, load_string-IsCpu) depth 30

pub lodsd_i-Keeps : Keeps lodsd_i
unfolding lodsd_i
lodsd_i-Keeps insn c ok = search (string_rules, load_string-IsCpu) depth 30

pub cmpsb_i-Keeps : Keeps cmpsb_i
unfolding cmpsb_i
cmpsb_i-Keeps insn c ok = search (string_rules, compare_string-IsCpu) depth 30

pub cmpsw_i-Keeps : Keeps cmpsw_i
unfolding cmpsw_i
cmpsw_i-Keeps insn c ok = search (string_rules, compare_string-IsCpu) depth 30

pub cmpsd_i-Keeps : Keeps cmpsd_i
unfolding cmpsd_i
cmpsd_i-Keeps insn c ok = search (string_rules, compare_string-IsCpu) depth 30

pub scas_i-Keeps : Keeps scas_i
unfolding scas_i
scas_i-Keeps insn c ok = search string_rules depth 30
