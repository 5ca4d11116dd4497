-- ===== src/Instr/BitTest/Scans.antt =====
-- BSF and BSR never enter their loops.
use vm_i386_32bit.Base.{
  ℕ, ◌/◌, ◌^◌, ◌≡◌, refl, Bool-cases, inl, inr, false, some, bit_and-zero, ◌==◌,
}
use vm_i386_32bit.Flags.{zf, zero_test}
use vm_i386_32bit.Machine.{Cpu, put}
use vm_i386_32bit.Operand.{Insn, Operand, op_reg, advance, source_value}
use vm_i386_32bit.Instr.BitTest.{scan_test, scan, scan_with, bsf_i, bsr_i}

scan-stops :
    (w : ℕ) (step : ℕ → ℕ) (op : Operand) (val temp : ℕ) (c : Cpu)
    → scan 1 w step op val temp c ≡ some c
unfolding scan scan_test zero_test
scan-stops w step op val temp c = rw (scan, scan_test, bit_and-zero (val / 2 ^ temp)) refl

scan_with-flag :
    (step : ℕ → ℕ) (from : (w : ℕ) → ℕ) (insn : Insn) (c : Cpu) (val : ℕ)
    → source_value insn.op2 (advance insn c) ≡ some val
    → insn.op1.kind ≡ op_reg
    → scan_with 1 step from insn c ≡ some (put zf (val == 0) (advance insn c), 0)
unfolding scan_with
scan_with-flag step from insn c val value kind = elim (Bool-cases (val == 0)) [
  | inl e ↦ rw (value, e) refl
  | inr e ↦
      simp (value, kind, e, scan-stops _ step insn.op1 val (from _) (put zf false (advance insn c)))
]

module _ (insn : Insn) (c : Cpu) (val : ℕ)
    (value : source_value insn.op2 (advance insn c) ≡ some val)
    (kind : insn.op1.kind ≡ op_reg) where
  pub scans-Unwritten :
      (bsf_i insn c ≡ some (put zf (val == 0) (advance insn c), 0))
      × (bsr_i insn c ≡ some (put zf (val == 0) (advance insn c), 0))
  unfolding bsf_i bsr_i
  scans-Unwritten =
      (scan_with-flag _ _ insn c val value kind, scan_with-flag _ _ insn c val value kind)
