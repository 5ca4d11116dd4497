-- ===== src/Instr/Decimal.antt =====
-- The decimal adjustments of src/instr.c: AAA, AAS, AAM, AAD, DAA and DAS.
pub mod Trips
mod Tests
use vm_i386_32bit.Base.{
  ℕ, ◌+◌, ◌-◌, ◌*◌, ◌/◌, ◌%◌, ◌^◌, bit_and, Bool, Option, true, false, some, not, ltb, ◌==◌, to_nat,
  ◌||◌, if◌then◌else◌, ◌>>=◌,
}
use vm_i386_32bit.Flags.{cf, pf, af, zf, sf, sign, parity, zero_test}
use vm_i386_32bit.Machine.{Cpu, in_var, load, store, put, flag, set_var, eax}
use vm_i386_32bit.Operand.{advance}
use vm_i386_32bit.Instr.Arith.{sub32}
use vm_i386_32bit.Instr.FlagOps.{second_byte, set_second_byte}
use vm_i386_32bit.Instr.Handler.{Handler}

-- `*al & 0x0F > 9`, which C reads as `*al & (0x0F > 9)`.
unfoldable pub aaa_test : (al : ℕ) → Bool
aaa_test al = not (zero_test (bit_and al (to_nat (ltb 9 0x0F))))

unfoldable pub aaa_i : Handler
aaa_i insn c = do
  let c = advance insn c
  al ← load 1 (in_var eax) c
  if aaa_test al || flag af c
      then (do
        c ← store 1 (in_var eax) (bit_and (al + 6) 0x0F) c
        let c = set_var eax (set_second_byte (c.var eax) (second_byte (c.var eax) + 1)) c
        some (put cf true (put af true c), 0))
      else some (put zf false (put af false c), 0)

unfoldable pub aas_i : Handler
aas_i insn c = do
  let c = advance insn c
  al ← load 1 (in_var eax) c
  if ltb 9 (bit_and al 0x0F) || flag af c
      then (do
        c ← store 1 (in_var eax) (sub32 al 6) c
        al ← load 1 (in_var eax) c
        c ← store 1 (in_var eax) (bit_and al 0x0F) c
        let c = set_var eax (set_second_byte (c.var eax) (sub32 (second_byte (c.var eax)) 1)) c
        some (put cf true (put af true c), 0))
      else some (put cf false (put af false c), 0)

-- SF, ZF and PF from AL; AAD and AAM clear ZF where DAA and DAS set it.
unfoldable pub decimal_flags : (zero : ℕ → Bool) → Cpu → Option (Cpu × ℕ)
decimal_flags zero c = do
  al ← load 1 (in_var eax) c
  let c = put sf (sign al 0x8) c
  let c = put zf (zero al) c
  some (put pf (parity al) c, 0)

unfoldable pub aad_i : Handler
aad_i insn c = do
  let c = advance insn c
  al ← load 1 (in_var eax) c
  c ← store 1 (in_var eax) (second_byte (c.var eax) * 10 + al) c
  let c = set_var eax (set_second_byte (c.var eax) 0) c
  decimal_flags (λ al. not (zero_test al)) c

unfoldable pub aam_i : Handler
aam_i insn c = do
  let c = advance insn c
  al ← load 1 (in_var eax) c
  let c = set_var eax (set_second_byte (c.var eax) (al / 10)) c
  al ← load 1 (in_var eax) c
  c ← store 1 (in_var eax) (al % 10) c
  decimal_flags (λ al. not (zero_test al)) c

-- One digit of DAA or DAS: the step if the test or the flag says so, and the flag after it.
unfoldable pub adjust_low : (step : ℕ → ℕ) → Cpu → Option Cpu
adjust_low step c = do
  al ← load 1 (in_var eax) c
  if ltb 9 (bit_and al 0xF) || flag af c
      then (do c ← store 1 (in_var eax) (step al) c; some (put af true c))
      else some (put af false c)

unfoldable pub adjust_high : (step : ℕ → ℕ) → Cpu → Option Cpu
adjust_high step c = do
  al ← load 1 (in_var eax) c
  if ltb 0x9F al || flag cf c
      then (do c ← store 1 (in_var eax) (step al) c; some (put cf true c))
      else some (put cf false c)

unfoldable pub daa_i : Handler
daa_i insn c = do
  let c = advance insn c
  c ← adjust_low (λ al. al + 6) c
  c ← adjust_high (λ al. al + 0x60) c
  decimal_flags zero_test c

unfoldable pub das_i : Handler
das_i insn c = do
  let c = advance insn c
  c ← adjust_low (λ al. sub32 al 6) c
  c ← adjust_high (λ al. sub32 al 0x60) c
  decimal_flags zero_test c
