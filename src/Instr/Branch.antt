-- ===== src/Instr/Branch.antt =====
-- CMP followed by a conditional jump, the way compilers write a branch.
mod Tests
use vm_i386_32bit.Base.{
  ℕ, ◌-◌, ◌^◌, ◌≤◌, ◌<◌, ◌≡◌, ◌≢◌, ◌↔◌, refl, arith, Bool, true, false, not, ◌&&◌, ◌||◌, some,
  same_bool, ltb, ◌==◌, ◌⊎◌, inl, inr, Bool-cases, sym,
}
use vm_i386_32bit.Flags.{Flag, cf, zf, sf, of, sign, overflow}
use vm_i386_32bit.Flags.Meaning.{Width, dword, difference_of, overflow-sub_nonneg}
use vm_i386_32bit.Machine.{Cpu, Var, flag}
use vm_i386_32bit.Operand.{Insn, op_imm, advance}
use vm_i386_32bit.Instr.Handler.{Handler}
use vm_i386_32bit.Instr.Arith.{cmp_i, cmp_source}
use vm_i386_32bit.Instr.Arith.Flags.{CmpFlags, flag-put_flags}
use vm_i386_32bit.Instr.Arith.Registers.{IsRegister, low}
use vm_i386_32bit.Instr.Arith.Compare.{compared, cmp_i-compared}
use vm_i386_32bit.Instr.Jump.{jump_if, ja_i, jae_i, jb_i, jbe_i, je_i, jne_i, jl_i, jle_i}
use vm_i386_32bit.Instr.Jump.Pairs.{Jumps, Falls, jump_if-Jumps, jump_if-Falls}

-- The handler jumps and `P` holds, or it falls through and `P` does not.
pub record Decides (h : Handler) (insn : Insn) (c : Cpu) (P : Type 0) : Type 0 where
  pub outcome : (P × Jumps h insn c) ⊎ ((¬ P) × Falls h insn c)

advance-flag : (f : Flag) (insn : Insn) (c : Cpu) → flag f (advance insn c) ≡ flag f c
unfolding advance
advance-flag f insn c = refl

jump_if-Decides :
    (p : Cpu → Bool) (insn : Insn) (c : Cpu) {P : Type 0}
    → insn.op1.kind ≡ op_imm
    → (p (advance insn c) ≡ true) ↔ P
    → Decides (jump_if p) insn c P
jump_if-Decides p insn c direct e = record {
  outcome = elim (Bool-cases (p (advance insn c))) [
    | inl t ↦ inl (e.0 t, jump_if-Jumps p insn c direct t)
    | inr f ↦ inr ((λ h. let t = e.1 h in cc), jump_if-Falls p insn c direct f)
  ];
}

-- The unsigned jumps and the tests for equality, after flags that compare `a` with `b`.
module _ {w : Width} {a b : ℕ} (insn : Insn) (c : Cpu) (direct : insn.op1.kind ≡ op_imm)
    (f : CmpFlags w a b c) where
  pub jumps-Decides :
      Decides ja_i insn c (b < a)
      × Decides jae_i insn c (b ≤ a)
      × Decides jb_i insn c (a < b)
      × Decides jbe_i insn c (a ≤ b)
      × Decides je_i insn c (a ≡ b)
      × Decides jne_i insn c (a ≢ b)
  unfolding ja_i jae_i jb_i jbe_i je_i jne_i
  jumps-Decides = (
    jump_if-Decides _ insn c direct
        (rw (advance-flag, advance-flag) (ground (arith, f.borrow, f.zeroed))),
    jump_if-Decides _ insn c direct (rw advance-flag (ground (arith, f.borrow))),
    jump_if-Decides _ insn c direct (rw advance-flag (ground (arith, f.borrow))),
    jump_if-Decides _ insn c direct
        (rw (advance-flag, advance-flag) (ground (arith, f.borrow, f.zeroed))),
    jump_if-Decides _ insn c direct (rw advance-flag (ground (arith, f.zeroed))),
    jump_if-Decides _ insn c direct (rw advance-flag (ground (arith, f.zeroed))),
  )

-- The signed jumps on numbers without sign.
module _ {v : Var} (compare jump : Insn) (c : Cpu) (b : ℕ) (dst : IsRegister dword v compare.op1)
    (direct : jump.op1.kind ≡ op_imm) (small : low dword (c.var v) < 2 ^ 31) (fits : b < 2 ^ 31)
    (source : cmp_source compare.op1.size compare.op2 (advance compare c) ≡ some b) where
  abbrev after : Cpu
  after = compared compare c b dst (omega arith)

  sign-overflow : flag sf after ≡ flag of after
  sign-overflow =
      rw (flag-put_flags, flag-put_flags)
        (sym (overflow-sub_nonneg (low dword (c.var v)) b small fits))

  same_bool-flags : same_bool (flag sf (advance jump after)) (flag of (advance jump after)) ≡ true
  same_bool-flags =
      rw (advance-flag sf jump after, advance-flag of jump after, sign-overflow)
        (same_bool_refl (flag of after))
    where
      same_bool_refl : (x : Bool) → same_bool x x ≡ true
      same_bool_refl true = refl
      same_bool_refl false = refl

  -- After a CMP of a 32-bit register with a value, both below two to the 31, neither JL nor JLE
  -- with an immediate operand jumps: both fall through, whichever of the two numbers is less.
  pub cmp-signed_jumps_fall :
      (d : Cpu) × (cmp_i compare c ≡ some (d, 0)) × Falls jl_i jump d × Falls jle_i jump d
  unfolding jl_i jle_i
  cmp-signed_jumps_fall = (
    after,
    cmp_i-compared compare c b dst (omega arith) source,
    jump_if-Falls _ jump after direct (rw same_bool-flags),
    jump_if-Falls _ jump after direct (ground (arith, same_bool-flags)),
  )
