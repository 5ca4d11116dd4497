-- ===== src/Invariant/Accumulator.antt =====
-- Flag instructions, conversions, decimal adjustments, multiplication and division.
use vm_i386_32bit.Base.{
  ℕ, ◌/◌, ◌%◌, ◌^◌, Bool, arith, ◌==◌, if◌then◌else◌, bit_and, bit_or, bit_or-lt, bit_and-le,
  bit_xor-lt,
}
use vm_i386_32bit.Machine.{Cpu, Var, set_var, eax, edx, eflags}
use vm_i386_32bit.Machine.State.{IsCpu}
use vm_i386_32bit.Operand.{advance}
use vm_i386_32bit.Invariant.Rules.{
  Gives, gives, Keeps, Runs, pair-IsCpu, advance-IsCpu, set_var-IsCpu,
}
use vm_i386_32bit.Invariant.Access.{
  IsWord, if-IsWord, keeps_rules, target_value-IsWord, source_value-IsWord, source_value32-IsWord,
  put-IsCpu, store-IsCpu, eff_addr-IsWord, load-IsWord, load_bytes-IsWord, reg_val-IsWord,
  read16-IsWord, read32-IsWord, write16-IsCpu, write32-IsCpu, u32-IsWord, width_of-le,
  size_width-le, cmp_width-le, one-le, two-le, four-le,
}
use vm_i386_32bit.Flags.{sign, cf, complement_flag, mask}
use vm_i386_32bit.Instr.FlagOps.{
  second_byte, set_second_byte, clc_i, cld_i, cli_i, cmc_i, stc_i, std_i, sti_i, clts_i, nop_i,
  lahf_i, sahf_i,
}
use vm_i386_32bit.Instr.Convert.{cbw_i, cwde_i, cwd_i, cdq_i}
use vm_i386_32bit.Instr.Decimal.{
  decimal_flags, aaa_i, aas_i, aad_i, aam_i, adjust_low, adjust_high, daa_i, das_i,
}
use vm_i386_32bit.Instr.MulDiv.{mul_flags, mul8, mul16, mul32, mul_i, div8, div16, div32, div_i}

pub clc_i-Keeps : Keeps clc_i
unfolding clc_i
clc_i-Keeps insn c ok = search keeps_rules depth 30

pub cld_i-Keeps : Keeps cld_i
unfolding cld_i
cld_i-Keeps insn c ok = search keeps_rules depth 30

pub cli_i-Keeps : Keeps cli_i
unfolding cli_i
cli_i-Keeps insn c ok = search keeps_rules depth 30

pub stc_i-Keeps : Keeps stc_i
unfolding stc_i
stc_i-Keeps insn c ok = search keeps_rules depth 30

pub std_i-Keeps : Keeps std_i
unfolding std_i
std_i-Keeps insn c ok = search keeps_rules depth 30

pub sti_i-Keeps : Keeps sti_i
unfolding sti_i
sti_i-Keeps insn c ok = search keeps_rules depth 30

pub clts_i-Keeps : Keeps clts_i
unfolding clts_i
clts_i-Keeps insn c ok = search keeps_rules depth 30

pub nop_i-Keeps : Keeps nop_i
unfolding nop_i
nop_i-Keeps insn c ok = search keeps_rules depth 30

complement-IsWord : (e : ℕ) → IsWord e → IsWord (complement_flag cf e)
unfolding complement_flag
complement-IsWord e h = bit_xor-lt 32 e (mask cf) h (omega arith)

pub cmc_i-Keeps : Keeps cmc_i
unfolding cmc_i
cmc_i-Keeps insn c ok =
    let moved = advance-IsCpu insn c ok in
    gives (set_var-IsCpu eflags _ _ (complement-IsWord _ (moved.words eflags)) moved)

-- Another second byte in a register.
pub second_byte-IsCpu :
    (v : Var) (b : ℕ) (c : Cpu) → IsCpu c → IsCpu (set_var v (set_second_byte (c.var v) b) c)
unfolding set_second_byte second_byte
second_byte-IsCpu v b c ok = set_var-IsCpu v _ c (omega (arith, ok.words v)) ok

pub ruleset byte_rules = (keeps_rules, second_byte-IsCpu)

pub lahf_i-Keeps : Keeps lahf_i
unfolding lahf_i
lahf_i-Keeps insn c ok = search byte_rules depth 30

pub sahf_i-Keeps : Keeps sahf_i
unfolding sahf_i
sahf_i-Keeps insn c ok = search keeps_rules depth 30

pub cbw_i-Keeps : Keeps cbw_i
unfolding cbw_i
cbw_i-Keeps insn c ok = search keeps_rules depth 30

pub cwd_i-Keeps : Keeps cwd_i
unfolding cwd_i
cwd_i-Keeps insn c ok = search keeps_rules depth 30

pub cwde_i-Keeps : Keeps cwde_i
unfolding cwde_i
cwde_i-Keeps insn c ok =
    let moved = advance-IsCpu insn c ok in
    gives (set_var-IsCpu eax _ _ (extended ((advance insn c).var eax) (moved.words eax)) moved)
  where
    extended :
        (x : ℕ)
        → IsWord x
        → IsWord (
            if x % 2 ^ 16 / 2 ^ 15 == 0
            then bit_and x (bit_and 0x0000FFFF (x % 2 ^ 16))
            else bit_or x (bit_or 0xFFFF0000 (x % 2 ^ 16)))
    extended x h =
        let low = bit_and 0x0000FFFF (x % 2 ^ 16) in
        if-IsWord (x % 2 ^ 16 / 2 ^ 15 == 0) (bit_and x low)
          (bit_or x (bit_or 0xFFFF0000 (x % 2 ^ 16))) (omega (arith, bit_and-le x low))
          (bit_or-lt 32 x _ h (bit_or-lt 32 0xFFFF0000 (x % 2 ^ 16) (omega arith) (omega arith)))

pub cdq_i-Keeps : Keeps cdq_i
unfolding cdq_i
cdq_i-Keeps insn c ok =
    let moved = advance-IsCpu insn c ok in
    gives (
      set_var-IsCpu edx _ _
        (if-IsWord (sign ((advance insn c).var eax) 0x20) 0xFFFFFFFF 0x00000000 (omega arith)
          (omega arith))
        moved)

decimal_flags-Runs : (nil : ℕ → Bool) (c : Cpu) → IsCpu c → Runs (decimal_flags nil c)
unfolding decimal_flags
decimal_flags-Runs nil c ok = search keeps_rules depth 20

adjust_low-IsCpu : (step : ℕ → ℕ) (c : Cpu) → IsCpu c → Gives IsCpu (adjust_low step c)
unfolding adjust_low
adjust_low-IsCpu step c ok = search keeps_rules depth 20

adjust_high-IsCpu : (step : ℕ → ℕ) (c : Cpu) → IsCpu c → Gives IsCpu (adjust_high step c)
unfolding adjust_high
adjust_high-IsCpu step c ok = search keeps_rules depth 20

ruleset decimal_rules = (byte_rules, decimal_flags-Runs, adjust_low-IsCpu, adjust_high-IsCpu)

pub aaa_i-Keeps : Keeps aaa_i
unfolding aaa_i
aaa_i-Keeps insn c ok = search decimal_rules depth 30

pub aas_i-Keeps : Keeps aas_i
unfolding aas_i
aas_i-Keeps insn c ok = search decimal_rules depth 30

pub aad_i-Keeps : Keeps aad_i
unfolding aad_i
aad_i-Keeps insn c ok = search decimal_rules depth 30

pub aam_i-Keeps : Keeps aam_i
unfolding aam_i
aam_i-Keeps insn c ok = search decimal_rules depth 30

pub daa_i-Keeps : Keeps daa_i
unfolding daa_i
daa_i-Keeps insn c ok = search decimal_rules depth 30

pub das_i-Keeps : Keeps das_i
unfolding das_i
das_i-Keeps insn c ok = search decimal_rules depth 30

mul_flags-IsCpu : (high : ℕ) (c : Cpu) → IsCpu c → IsCpu (mul_flags high c)
unfolding mul_flags
mul_flags-IsCpu high c ok = search put-IsCpu

mul8-IsCpu : (val : ℕ) (c : Cpu) → IsCpu c → Gives IsCpu (mul8 val c)
unfolding mul8
mul8-IsCpu val c ok = search (keeps_rules, mul_flags-IsCpu) depth 20

mul16-IsCpu : (val : ℕ) (c : Cpu) → IsCpu c → Gives IsCpu (mul16 val c)
unfolding mul16
mul16-IsCpu val c ok = search (keeps_rules, mul_flags-IsCpu) depth 20

mul32-IsCpu : (val : ℕ) (c : Cpu) → IsCpu c → IsCpu (mul32 val c)
unfolding mul32
mul32-IsCpu val c ok = search (mul_flags-IsCpu, set_var-IsCpu, u32-IsWord) depth 20

pub mul_i-Keeps : Keeps mul_i
unfolding mul_i
mul_i-Keeps insn c ok = search (keeps_rules, mul8-IsCpu, mul16-IsCpu, mul32-IsCpu) depth 30

div8-Runs : (val : ℕ) (c : Cpu) → IsCpu c → Runs (div8 val c)
unfolding div8
div8-Runs val c ok = search byte_rules depth 20

div16-Runs : (val : ℕ) (c : Cpu) → IsCpu c → Runs (div16 val c)
unfolding div16
div16-Runs val c ok = search keeps_rules depth 20

div32-IsCpu : (val : ℕ) (c : Cpu) → IsCpu c → IsCpu (div32 val c).0
unfolding div32
div32-IsCpu val c ok = search (pair-IsCpu, set_var-IsCpu, u32-IsWord) depth 10

pub div_i-Keeps : Keeps div_i
unfolding div_i
div_i-Keeps insn c ok = search (keeps_rules, div8-Runs, div16-Runs, div32-IsCpu) depth 30
