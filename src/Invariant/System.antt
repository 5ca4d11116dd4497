-- ===== src/Invariant/System.antt =====
-- Segment and system instructions, interrupts, ports.
use vm_i386_32bit.Base.{ℕ, zero, suc, ◌≤◌, arith, Option, ◌==◌, if◌then◌else◌}
use vm_i386_32bit.Machine.{Cpu, Place, Var}
use vm_i386_32bit.Machine.State.{IsCpu}
use vm_i386_32bit.Operand.{Operand, Insn}
use vm_i386_32bit.Invariant.Rules.{
  Gives, undefined, gives, Gives-kind, Gives-when, Gives-write, Gives-read, Gives-run, Keeps, Runs,
  pair-IsCpu, advance-IsCpu, set_var-IsCpu,
}
use vm_i386_32bit.Invariant.Access.{
  keeps_rules, store-IsCpu, load_bytes-IsWord, u32-IsWord, one-le, two-le, four-le,
}
use vm_i386_32bit.Machine.{Gdtr, ds, es, fs, gs, ss}
use mathlib.Core.List.{List, [], ◌∷◌}
use vm_i386_32bit.Base.{leb, none, get_or}
use vm_i386_32bit.Instr.Segment.{
  lar_i, load_far, lds_i, les_i, lfs_i, lgs_i, lss_i, lsl_i, lgdt_i, lidt_i, store_table, sgdt_i,
  sidt_i, lldt_i, sldt_i, lmsw_i, smsw_i, verify, verr_i, verw_i, arpl_i, bound_check,
  bound_operands, bound_i,
}
use vm_i386_32bit.Instr.Unimplemented.{hlt_i, iret_i, iretd_i, ltr_i, lock_i, wait_i, shld_i}
use vm_i386_32bit.Instr.Interrupt.{
  Interrupt, repeat, unimplemented, int80, idt, int_dispatcher, int_i, into_i,
}
use vm_i386_32bit.Instr.Port.{
  Ports, port_read, port_write, string_transfer, in_i, out_i, ins_i, insb_i, insw_i, insd_i, outs_i,
  outsb_i, outsw_i, outsd_i,
}

pub lar_i-Keeps : Keeps lar_i
unfolding lar_i
lar_i-Keeps insn c ok = search keeps_rules depth 20

load_far-Keeps : (s : Var) → Keeps (load_far s)
unfolding load_far
load_far-Keeps s insn c ok = search (keeps_rules, Gives-read, load_bytes-IsWord) depth 20

pub lds_i-Keeps : Keeps lds_i
unfolding lds_i
lds_i-Keeps = load_far-Keeps ds

pub les_i-Keeps : Keeps les_i
unfolding les_i
les_i-Keeps = load_far-Keeps es

pub lfs_i-Keeps : Keeps lfs_i
unfolding lfs_i
lfs_i-Keeps = load_far-Keeps fs

pub lgs_i-Keeps : Keeps lgs_i
unfolding lgs_i
lgs_i-Keeps = load_far-Keeps gs

pub lss_i-Keeps : Keeps lss_i
unfolding lss_i
lss_i-Keeps = load_far-Keeps ss

pub lsl_i-Keeps : Keeps lsl_i
unfolding lsl_i
lsl_i-Keeps insn c ok = search keeps_rules depth 20

-- The table registers, LDTR and CR0 are not part of what is kept.
gdtr-IsCpu : (t : Gdtr) (c : Cpu) → IsCpu c → IsCpu (record c { gdtr = t })
gdtr-IsCpu t c ok = record { words = ok.words; bytes = ok.bytes }

idtr-IsCpu : (t : Gdtr) (c : Cpu) → IsCpu c → IsCpu (record c { idtr = t })
idtr-IsCpu t c ok = record { words = ok.words; bytes = ok.bytes }

ldtr-IsCpu : (x : ℕ) (c : Cpu) → IsCpu c → IsCpu (record c { ldtr = x })
ldtr-IsCpu x c ok = record { words = ok.words; bytes = ok.bytes }

cr0-IsCpu : (x : ℕ) (c : Cpu) → IsCpu c → IsCpu (record c { cr0 = x })
cr0-IsCpu x c ok = record { words = ok.words; bytes = ok.bytes }

store_table-Runs : (t : Gdtr) (insn : Insn) (c : Cpu) → IsCpu c → Runs (store_table t insn c)
unfolding store_table
store_table-Runs t insn c ok = search keeps_rules depth 20

ruleset table_rules = (keeps_rules, gdtr-IsCpu, idtr-IsCpu, ldtr-IsCpu, cr0-IsCpu, store_table-Runs)

pub lgdt_i-Keeps : Keeps lgdt_i
unfolding lgdt_i
lgdt_i-Keeps insn c ok = search table_rules depth 30

pub lidt_i-Keeps : Keeps lidt_i
unfolding lidt_i
lidt_i-Keeps insn c ok = search table_rules depth 30

pub lldt_i-Keeps : Keeps lldt_i
unfolding lldt_i
lldt_i-Keeps insn c ok = search table_rules depth 30

pub lmsw_i-Keeps : Keeps lmsw_i
unfolding lmsw_i
lmsw_i-Keeps insn c ok = search table_rules depth 30

pub sgdt_i-Keeps : Keeps sgdt_i
unfolding sgdt_i
sgdt_i-Keeps insn c ok = search table_rules depth 30

pub sidt_i-Keeps : Keeps sidt_i
unfolding sidt_i
sidt_i-Keeps insn c ok = search table_rules depth 30

pub sldt_i-Keeps : Keeps sldt_i
unfolding sldt_i
sldt_i-Keeps insn c ok = search table_rules depth 30

pub smsw_i-Keeps : Keeps smsw_i
unfolding smsw_i
smsw_i-Keeps insn c ok = search table_rules depth 30

verify-IsCpu : (insn : Insn) (c : Cpu) → IsCpu c → Gives IsCpu (verify insn c)
unfolding verify
verify-IsCpu insn c ok = search keeps_rules depth 20

pub verr_i-Keeps : (code : ℕ) → Keeps (verr_i code)
unfolding verr_i
verr_i-Keeps code insn c ok = search (keeps_rules, verify-IsCpu) depth 20

pub verw_i-Keeps : Keeps verw_i
unfolding verw_i
verw_i-Keeps insn c ok = search (keeps_rules, verify-IsCpu) depth 30

pub arpl_i-Keeps : Keeps arpl_i
unfolding arpl_i
arpl_i-Keeps insn c ok = search keeps_rules depth 30

bound_check-IsCpu : (r lower upper : ℕ) (c : Cpu) → IsCpu c → IsCpu (bound_check r lower upper c).0
unfolding bound_check
bound_check-IsCpu r lower upper c ok = search pair-IsCpu

bound_operands-Runs : (op1 op2 : Operand) (c : Cpu) → IsCpu c → Runs (bound_operands op1 op2 c)
unfolding bound_operands
bound_operands-Runs op1 op2 c ok = search (keeps_rules, bound_check-IsCpu) depth 20

pub bound_i-Keeps : Keeps bound_i
unfolding bound_i
bound_i-Keeps insn c ok =
    let moved = advance-IsCpu insn c ok in
    Gives-kind insn.op1.kind (gives moved)
      (Gives-kind insn.op2.kind (gives moved) (gives moved) (gives moved)
        (bound_operands-Runs insn.op1 insn.op2 _ moved))
      (gives moved) (gives moved)

pub hlt_i-Keeps : Keeps hlt_i
unfolding hlt_i
hlt_i-Keeps insn c ok = search keeps_rules depth 30

pub iret_i-Keeps : Keeps iret_i
unfolding iret_i
iret_i-Keeps insn c ok = search keeps_rules depth 30

pub iretd_i-Keeps : Keeps iretd_i
unfolding iretd_i
iretd_i-Keeps insn c ok = search keeps_rules depth 30

pub ltr_i-Keeps : Keeps ltr_i
unfolding ltr_i
ltr_i-Keeps insn c ok = search keeps_rules depth 30

pub lock_i-Keeps : Keeps lock_i
unfolding lock_i
lock_i-Keeps insn c ok = search keeps_rules depth 30

pub wait_i-Keeps : Keeps wait_i
unfolding wait_i
wait_i-Keeps insn c ok = search keeps_rules depth 30

pub shld_i-Keeps : Keeps shld_i
unfolding shld_i
shld_i-Keeps insn c ok = search keeps_rules depth 30

-- An interrupt that keeps machines well-formed.
abbrev pub KeepsCpu : Interrupt → Type 0
KeepsCpu f = (c : Cpu) → IsCpu c → Runs (f c)

unimplemented-KeepsCpu : KeepsCpu unimplemented
unfolding unimplemented
unimplemented-KeepsCpu c ok = gives ok

-- Every entry of a list of interrupts keeps them, and so does what stands for an index outside it.
abbrev KeepAll : List Interrupt → Type 0
KeepAll rest = (v : ℕ) → KeepsCpu (get_or rest v (λ c. none))

KeepAll-nil : KeepAll []
KeepAll-nil v c ok = undefined

KeepAll-cons :
    (f : Interrupt) (rest : List Interrupt) → KeepsCpu f → KeepAll rest → KeepAll (f ∷ rest)
KeepAll-cons f rest p ps zero = p
KeepAll-cons f rest p ps (suc v) = ps v

KeepAll-repeat :
    (n : ℕ) (f : Interrupt) (rest : List Interrupt)
    → KeepsCpu f
    → KeepAll rest
    → KeepAll (repeat n f rest)
unfolding repeat
KeepAll-repeat zero f rest p ps = ps
KeepAll-repeat (suc n) f rest p ps = KeepAll-cons f _ p (KeepAll-repeat n f rest p ps)

module _ (syscalls : ℕ → Interrupt) (keeps : (n : ℕ) → KeepsCpu (syscalls n)) where
  int80-KeepsCpu : KeepsCpu (int80 syscalls)
  unfolding int80
  int80-KeepsCpu c ok = search (gives, Gives-run, set_var-IsCpu, u32-IsWord, keeps) depth 10

  int_dispatcher-KeepsCpu : (v : ℕ) → KeepsCpu (int_dispatcher syscalls v)
  unfolding int_dispatcher idt
  int_dispatcher-KeepsCpu =
      KeepAll-repeat 128 _ _ unimplemented-KeepsCpu (
        KeepAll-cons _ _ int80-KeepsCpu (KeepAll-repeat 143 _ _ unimplemented-KeepsCpu KeepAll-nil))

  pub int_i-Keeps : Keeps (int_i syscalls)
  unfolding int_i
  int_i-Keeps insn c ok = search (keeps_rules, int_dispatcher-KeepsCpu)

  pub into_i-Keeps : Keeps (into_i syscalls)
  unfolding into_i
  into_i-Keeps insn c ok = search (keeps_rules, int_dispatcher-KeepsCpu)

port_read-Runs :
    (ports : Ports) (n port : ℕ) (p : Place) (c : Cpu)
    → n ≤ 4
    → IsCpu c
    → Runs (port_read ports n port p c)
unfolding port_read
port_read-Runs ports n port p c h ok =
    Gives-when (leb (ports.pread n port).0 n)
      (λ e. Gives-write (store-IsCpu _ p _ c (ground arith) ok) λ d k. gives k) (gives ok)

port_write-Runs :
    (ports : Ports) (n port : ℕ) (p : Place) (c : Cpu)
    → n ≤ 4
    → IsCpu c
    → Runs (port_write ports n port p c)
unfolding port_write
port_write-Runs ports n port p c h ok = search keeps_rules

transfer-le : (s : ℕ) → (if s == 1 then 1 else if s == 2 then 2 else 4) ≤ 4
transfer-le s = ground arith

ruleset port_rules = (keeps_rules, Gives-run, port_read-Runs, port_write-Runs, transfer-le)

module _ (ports : Ports) where
  pub in_i-Keeps : Keeps (in_i ports)
  unfolding in_i
  in_i-Keeps insn c ok = search port_rules depth 20

  pub out_i-Keeps : Keeps (out_i ports)
  unfolding out_i
  out_i-Keeps insn c ok = search port_rules depth 20

  string_transfer-Runs :
      (transfer : Ports → (n port : ℕ) → Place → Cpu → Option (Cpu × ℕ))
      → ((n port : ℕ) (p : Place) (c : Cpu) → n ≤ 4 → IsCpu c → Runs (transfer ports n port p c))
      → (n : ℕ) (place : Cpu → Option Place) (c : Cpu) → n ≤ 4
      → IsCpu c
      → Runs (string_transfer transfer ports n place c)
  unfolding string_transfer
  string_transfer-Runs transfer keeps n place c h ok =
      search (keeps_rules, Gives-run, keeps) depth 20

  pub ins_i-Keeps : Keeps (ins_i ports)
  unfolding ins_i
  ins_i-Keeps insn c ok =
      string_transfer-Runs port_read (port_read-Runs ports) _ _ _ (transfer-le insn.op1.size)
        (advance-IsCpu insn c ok)

  pub outs_i-Keeps : Keeps (outs_i ports)
  unfolding outs_i
  outs_i-Keeps insn c ok =
      string_transfer-Runs port_write (port_write-Runs ports) _ _ _ (transfer-le insn.op2.size)
        (advance-IsCpu insn c ok)

  pub insb_i-Keeps : Keeps (insb_i ports)
  unfolding insb_i
  insb_i-Keeps insn c ok =
      string_transfer-Runs port_read (port_read-Runs ports) 1 _ _ one-le (advance-IsCpu insn c ok)

  pub insw_i-Keeps : Keeps (insw_i ports)
  unfolding insw_i
  insw_i-Keeps insn c ok =
      string_transfer-Runs port_read (port_read-Runs ports) 2 _ _ two-le (advance-IsCpu insn c ok)

  pub insd_i-Keeps : Keeps (insd_i ports)
  unfolding insd_i
  insd_i-Keeps insn c ok =
      string_transfer-Runs port_read (port_read-Runs ports) 4 _ _ four-le (advance-IsCpu insn c ok)

  pub outsb_i-Keeps : Keeps (outsb_i ports)
  unfolding outsb_i
  outsb_i-Keeps insn c ok =
      string_transfer-Runs port_write (port_write-Runs ports) 1 _ _ one-le (advance-IsCpu insn c ok)

  pub outsw_i-Keeps : Keeps (outsw_i ports)
  unfolding outsw_i
  outsw_i-Keeps insn c ok =
      string_transfer-Runs port_write (port_write-Runs ports) 2 _ _ two-le (advance-IsCpu insn c ok)

  pub outsd_i-Keeps : Keeps (outsd_i ports)
  unfolding outsd_i
  outsd_i-Keeps insn c ok =
      string_transfer-Runs port_write (port_write-Runs ports) 4 _ _ four-le
        (advance-IsCpu insn c ok)
