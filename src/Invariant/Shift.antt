-- ===== src/Invariant/Shift.antt =====
-- Shifts, rotates and bit tests.
use vm_i386_32bit.Base.{
  ℕ, zero, suc, ◌*◌, ◌≤◌, Bool, true, false, arith, Option, ◌==◌, if◌then◌else◌,
}
use vm_i386_32bit.Machine.{Cpu, Place}
use vm_i386_32bit.Machine.State.{IsCpu}
use vm_i386_32bit.Operand.{Operand, advance}
use vm_i386_32bit.Invariant.Rules.{
  Gives, undefined, gives, Gives-if, Gives-kind, Gives-when, Gives-test, Gives-write, Gives-skip,
  Gives-shift, Keeps, Runs, advance-IsCpu,
}
use vm_i386_32bit.Invariant.Access.{keeps_rules, put-IsCpu, store-IsCpu, two_or_four-le}
use vm_i386_32bit.Base.{leb, ◌||◌}
use vm_i386_32bit.Flags.{zf}
use vm_i386_32bit.Machine.Registers.{regs_size}
use vm_i386_32bit.Operand.{reg_place, place_of, source_value}
use vm_i386_32bit.Instr.Shift.{
  shift_count, raw_count, shift_flags, shift_place, sal_register, shr_register, sar_register,
  shift_if, sal_i, shl_i, shr_i, sar_i,
}
use vm_i386_32bit.Instr.Rotate.{
  rol_place, ror_place, rcl_place, rcr_place, rotate_with, rol_i, ror_i, rcl_i, rcr_i, shrd_place,
  shrd_operands, shrd_i,
}
use vm_i386_32bit.Instr.BitTest.{
  bit_source, bit_number, bit_width, scan_test, put_bit, bt_i, change_bit, change_with, bts_memory,
  btc_i, btr_i, bts_i, scan, scan_with, bsf_i, bsr_i,
}

shift_flags-IsCpu : (res base : ℕ) (c : Cpu) → IsCpu c → IsCpu (shift_flags res base c)
unfolding shift_flags
shift_flags-IsCpu res base c ok = search put-IsCpu

shift_place-IsCpu :
    (w : ℕ) (p : Place) (out : ℕ → Bool) (f : ℕ → ℕ) (c : Cpu)
    → w ≤ 4
    → IsCpu c
    → Gives (λ r. IsCpu r.1) (shift_place w p out f c)
unfolding shift_place
shift_place-IsCpu w p out f c h ok = search keeps_rules depth 20

ruleset shift_rules = (keeps_rules, Gives-shift, shift_place-IsCpu, shift_flags-IsCpu)

sal_register-Runs : (count : ℕ) (op : Operand) (c : Cpu) → IsCpu c → Runs (sal_register count op c)
unfolding sal_register
sal_register-Runs count op c ok = search shift_rules depth 20

shr_register-Runs : (count : ℕ) (op : Operand) (c : Cpu) → IsCpu c → Runs (shr_register count op c)
unfolding shr_register
shr_register-Runs count op c ok = search shift_rules depth 20

sar_register-Runs : (count : ℕ) (op : Operand) (c : Cpu) → IsCpu c → Runs (sar_register count op c)
unfolding sar_register
sar_register-Runs count op c ok = search shift_rules depth 20

shift_if-Keeps :
    (shift : (count : ℕ) → Operand → Cpu → Option (Cpu × ℕ))
    → ((count : ℕ) (op : Operand) (c : Cpu) → IsCpu c → Runs (shift count op c))
    → Keeps (shift_if shift)
unfolding shift_if
shift_if-Keeps shift keeps insn c ok =
    let moved = advance-IsCpu insn c ok in
    Gives-skip (shift_count insn.op1.size insn.op2 (advance insn c)) _ λ count.
      Gives-if (count == 0) (gives moved) (
        Gives-kind insn.op1.kind (gives moved) (keeps count insn.op1 _ moved) (gives moved)
          (gives moved))

pub sal_i-Keeps : Keeps sal_i
unfolding sal_i
sal_i-Keeps = shift_if-Keeps sal_register sal_register-Runs

pub shl_i-Keeps : Keeps shl_i
unfolding shl_i
shl_i-Keeps = shift_if-Keeps sal_register sal_register-Runs

pub shr_i-Keeps : Keeps shr_i
unfolding shr_i
shr_i-Keeps = shift_if-Keeps shr_register shr_register-Runs

pub sar_i-Keeps : Keeps sar_i
unfolding sar_i
sar_i-Keeps = shift_if-Keeps sar_register sar_register-Runs

rol_place-Runs :
    (w b count : ℕ) (p : Place) (c : Cpu) → w ≤ 4 → IsCpu c → Runs (rol_place w b count p c)
unfolding rol_place
rol_place-Runs w b count p c h ok = search keeps_rules depth 20

ror_place-Runs :
    (w b count : ℕ) (p : Place) (c : Cpu) → w ≤ 4 → IsCpu c → Runs (ror_place w b count p c)
unfolding ror_place
ror_place-Runs w b count p c h ok = search keeps_rules depth 20

rcl_place-Runs :
    (w b count : ℕ) (p : Place) (c : Cpu) → w ≤ 4 → IsCpu c → Runs (rcl_place w b count p c)
unfolding rcl_place
rcl_place-Runs w b count p c h ok = search keeps_rules depth 20

rcr_place-Runs :
    (w b count : ℕ) (p : Place) (c : Cpu) → w ≤ 4 → IsCpu c → Runs (rcr_place w b count p c)
unfolding rcr_place
rcr_place-Runs w b count p c h ok = search keeps_rules depth 20

rotate_with-Keeps :
    (extra : ℕ) (rotate : (w b count : ℕ) → Place → Cpu → Option (Cpu × ℕ))
    → ((w b count : ℕ) (p : Place) (c : Cpu) → w ≤ 4 → IsCpu c → Runs (rotate w b count p c))
    → Keeps (rotate_with extra rotate)
unfolding rotate_with
rotate_with-Keeps extra rotate keeps insn c ok = search (keeps_rules, keeps) depth 20

pub rol_i-Keeps : Keeps rol_i
unfolding rol_i
rol_i-Keeps = rotate_with-Keeps 0 rol_place rol_place-Runs

pub ror_i-Keeps : Keeps ror_i
unfolding ror_i
ror_i-Keeps = rotate_with-Keeps 0 ror_place ror_place-Runs

pub rcl_i-Keeps : Keeps rcl_i
unfolding rcl_i
rcl_i-Keeps = rotate_with-Keeps 1 rcl_place rcl_place-Runs

pub rcr_i-Keeps : Keeps rcr_i
unfolding rcr_i
rcr_i-Keeps = rotate_with-Keeps 1 rcr_place rcr_place-Runs

shrd_place-Runs :
    (w amount : ℕ) (dst src : Place) (c : Cpu)
    → w ≤ 4
    → IsCpu c
    → Runs (shrd_place w amount dst src c)
unfolding shrd_place
shrd_place-Runs w amount dst src c h ok = search keeps_rules depth 20

shrd_operands-Runs :
    (amount : ℕ) (op1 op2 : Operand) (c : Cpu) → IsCpu c → Runs (shrd_operands amount op1 op2 c)
unfolding shrd_operands
shrd_operands-Runs amount op1 op2 c ok = Gives-skip (reg_place op2) _ λ src.
    Gives-skip (place_of op1 c) _ λ dst. Gives-if (amount == 0) (gives ok) (
      Gives-when (op2.size == 2 || op2.size == 4)
        (λ e.
          Gives-if (leb (op2.size * 8) amount) (gives ok)
            (shrd_place-Runs op2.size amount dst src c (ground arith) ok))
        undefined)

pub shrd_i-Keeps : Keeps shrd_i
unfolding shrd_i
shrd_i-Keeps insn c ok =
    let moved = advance-IsCpu insn c ok in
    Gives-skip (raw_count insn.op3 (advance insn c)) _ λ count.
      Gives-kind insn.op2.kind (gives moved) (shrd_operands-Runs _ insn.op1 insn.op2 _ moved)
        (gives moved) (gives moved)

put_bit-IsCpu : (x n : ℕ) (c : Cpu) → IsCpu c → IsCpu (put_bit x n c)
unfolding put_bit
put_bit-IsCpu x n c ok = put-IsCpu _ _ c ok

pub bt_i-Keeps : Keeps bt_i
unfolding bt_i
bt_i-Keeps insn c ok = search (keeps_rules, put_bit-IsCpu) depth 30

change_bit-Runs :
    (w n : ℕ) (change : (w x m : ℕ) → ℕ) (p : Place) (c : Cpu)
    → w ≤ 4
    → IsCpu c
    → Runs (change_bit w n change p c)
unfolding change_bit
change_bit-Runs w n change p c h ok = search (keeps_rules, put_bit-IsCpu) depth 20

bts_memory-Runs : (op : Operand) (val2 : ℕ) (c : Cpu) → IsCpu c → Runs (bts_memory op val2 c)
unfolding bts_memory
bts_memory-Runs op val2 c ok = search (keeps_rules, change_bit-Runs) depth 10

change_with-Keeps :
    (change : (w x m : ℕ) → ℕ) (in_memory : Operand → (val2 : ℕ) → Cpu → Option (Cpu × ℕ))
    → ((op : Operand) (val2 : ℕ) (c : Cpu) → IsCpu c → Runs (in_memory op val2 c))
    → Keeps (change_with change in_memory)
unfolding change_with
change_with-Keeps change in_memory keeps insn c ok =
    let moved = advance-IsCpu insn c ok in
    Gives-skip (bit_source insn.op2 (advance insn c)) _ λ source.
      Gives-kind insn.op1.kind (keeps insn.op1 source.0 _ moved)
        (Gives-skip (reg_place insn.op1) _ λ p.
          Gives-skip (bit_number source.0 (regs_size insn.op1.reg)) _ λ n.
            change_bit-Runs (bit_width insn.op1) n change p _
              (two_or_four-le (regs_size insn.op1.reg == 0x1)) moved)
        (keeps insn.op1 source.0 _ moved) (keeps insn.op1 source.0 _ moved)

pub btc_i-Keeps : Keeps btc_i
unfolding btc_i
btc_i-Keeps = change_with-Keeps _ _ λ op val2 c ok. undefined

pub btr_i-Keeps : Keeps btr_i
unfolding btr_i
btr_i-Keeps = change_with-Keeps _ _ λ op val2 c ok. undefined

pub bts_i-Keeps : Keeps bts_i
unfolding bts_i
bts_i-Keeps = change_with-Keeps _ bts_memory bts_memory-Runs

scan-IsCpu :
    (fuel w : ℕ) (step : ℕ → ℕ) (op : Operand) (val temp : ℕ) (c : Cpu)
    → w ≤ 4
    → IsCpu c
    → Gives IsCpu (scan fuel w step op val temp c)
unfolding scan
scan-IsCpu zero w step op val temp c h ok = undefined
scan-IsCpu (suc fuel) w step op val temp c h ok =
    Gives-test (scan_test val temp)
      (Gives-skip (reg_place op) _ λ p.
        Gives-write (store-IsCpu w p (step temp) c h ok)
          λ d k. scan-IsCpu fuel w step op val (step temp) d h k)
      (gives ok)

scan_with-Keeps : (fuel : ℕ) (step : ℕ → ℕ) (from : (w : ℕ) → ℕ) → Keeps (scan_with fuel step from)
unfolding scan_with
scan_with-Keeps fuel step from insn c ok =
    let moved = advance-IsCpu insn c ok in
    Gives-skip (source_value insn.op2 (advance insn c)) _ λ val.
      Gives-if (val == 0) (gives (put-IsCpu zf true _ moved)) (
        Gives-kind insn.op1.kind (gives moved)
          (let wide = regs_size insn.op1.reg == 0x10 in
            Gives-write
              (scan-IsCpu fuel (if wide then 2 else 4) step insn.op1 val _ _ (two_or_four-le wide)
                (put-IsCpu zf false _ moved))
              λ d k. gives k)
          (gives moved) (gives moved))

pub bsf_i-Keeps : Keeps bsf_i
unfolding bsf_i
bsf_i-Keeps = scan_with-Keeps _ _ _

pub bsr_i-Keeps : Keeps bsr_i
unfolding bsr_i
bsr_i-Keeps = scan_with-Keeps _ _ _
