-- ===== src/Instr/Strings.antt =====
-- The string instructions of src/instr.c: MOVS, STOS, LODS, CMPS, SCAS, and the REP forms. A REP
-- handler does one round and leaves EIP where it is until ECX has become zero, so that the main
-- loop runs it again.
pub mod Rounds
pub mod Copy
mod Tests
use vm_i386_32bit.Base.{
  ℕ, ◌+◌, ◌-◌, ◌*◌, ◌%◌, ◌^◌, Option, none, some, ltb, ◌==◌, if◌then◌else◌, ◌>>=◌,
}
use vm_i386_32bit.Flags.{df}
use vm_i386_32bit.Machine.{
  Cpu, Var, in_var, load, load_bytes, store, store_bytes, set_var, flag, u32, eax, ecx, esi, edi,
  es,
}
use vm_i386_32bit.Operand.{Insn, advance, eff_addr, get_gdt_base, size_width}
use vm_i386_32bit.Instr.Arith.{put_flags, sub32, base_of, cmp_width}
use vm_i386_32bit.Instr.Handler.{Handler}

-- `v += !test_Flag(DF) ? w : -w`
unfoldable pub step_index : Var → ℕ → Cpu → Cpu
step_index v w c = set_var v (u32 (c.var v + (if flag df c then 2 ^ 32 - w else w))) c

-- `*(mem + edi) = *(mem + esi)` and both indices stepped.
unfoldable pub move_string : ℕ → Cpu → Option Cpu
move_string w c = do
  x ← load_bytes w (c.var esi) c
  c ← store_bytes w (c.var edi) x c
  some (step_index esi w (step_index edi w c))

unfoldable pub movs_i : Handler
movs_i insn c = do c ← move_string (cmp_width insn.op1.size) (advance insn c); some (c, 0)

-- `ecx--; if (!ecx) eip += insn->size`
unfoldable pub count_down : Insn → Cpu → Cpu
count_down insn c =
    let c = set_var ecx (u32 (c.var ecx + 2 ^ 32 - 1)) c in
    if c.var ecx == 0 then advance insn c else c

unfoldable pub rep_movs_i : Handler
rep_movs_i insn c = do c ← move_string (cmp_width insn.op1.size) c; some (count_down insn c, 0)

-- `*(mem + segbase + edi) = eax` and the index stepped.
unfoldable pub store_string : (w segbase : ℕ) → Cpu → Option Cpu
store_string w segbase c = do
  x ← load w (in_var eax) c
  c ← store_bytes w (u32 (segbase + c.var edi)) x c
  some (step_index edi w c)

-- STOS ends without a `return`: its code is whatever the place for results holds.
unfoldable pub stos_i : (code : ℕ) → Handler
stos_i code insn c = do
  let c = advance insn c
  segbase ← get_gdt_base (c.var es % 2 ^ 16) c
  c ← store_string (cmp_width insn.op1.size) segbase c
  some (c, code)

unfoldable pub rep_stos_i : Handler
rep_stos_i insn c = do
  segbase ← get_gdt_base (c.var es % 2 ^ 16) c
  c ← store_string (cmp_width insn.op1.size) segbase c
  some (count_down insn c, 0)

unfoldable pub rep_ins_i : Handler
rep_ins_i insn c = some (advance insn c, 0)

unfoldable pub rep_outs_i : Handler
rep_outs_i insn c = some (advance insn c, 0)

-- LODS and SCAS leave ESI and EDI where they are.
unfoldable pub load_string : (w a : ℕ) → Cpu → Option Cpu
load_string w a c = do x ← load_bytes w a c; store w (in_var eax) x c

unfoldable pub lods_i : Handler
lods_i insn c = do
  let c = advance insn c
  a ← eff_addr insn.op1.mem c
  c ← load_string (cmp_width insn.op1.size) a c
  some (c, 0)

unfoldable pub lodsb_i : Handler
lodsb_i insn c = do let c = advance insn c; c ← load_string 1 (c.var esi) c; some (c, 0)

unfoldable pub lodsw_i : Handler
lodsw_i insn c = do let c = advance insn c; c ← load_string 2 (c.var esi) c; some (c, 0)

unfoldable pub lodsd_i : Handler
lodsd_i insn c = do let c = advance insn c; c ← load_string 4 (c.var esi) c; some (c, 0)

-- The source steps EDI before ESI, by the DF that the flags left alone.
unfoldable pub compare_string : ℕ → Cpu → Option Cpu
compare_string w c = do
  op1 ← load_bytes w (c.var esi) c
  op2 ← load_bytes w (c.var edi) c
  let res = sub32 op1 op2 % 2 ^ (8 * w)
  let c = put_flags (ltb op1 op2) op1 op2 res (w * 8) c
  some (step_index esi w (step_index edi w c))

unfoldable pub cmpsb_i : Handler
cmpsb_i insn c = do c ← compare_string 1 (advance insn c); some (c, 0)

unfoldable pub cmpsw_i : Handler
cmpsw_i insn c = do c ← compare_string 2 (advance insn c); some (c, 0)

unfoldable pub cmpsd_i : Handler
cmpsd_i insn c = do c ← compare_string 4 (advance insn c); some (c, 0)

unfoldable pub scas_i : Handler
scas_i insn c = do
  let c = advance insn c
  let w = cmp_width insn.op1.size
  o1 ← load w (in_var eax) c
  o2 ← load_bytes w (c.var edi) c
  let res = sub32 o1 o2
  some (put_flags (ltb o1 o2) o1 o2 res (base_of insn.op1.size) c, 0)
