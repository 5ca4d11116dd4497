-- ===== src/Instr/Jump.antt =====
-- The conditional jumps of src/instr.c. Their bodies differ in the condition alone.
pub mod Pairs
mod Tests
use vm_i386_32bit.Base.{
  ℕ, bit_and, Bool, Option, some, not, ◌&&◌, ◌||◌, ◌==◌, same_bool, if◌then◌else◌, ◌>>=◌,
}
use vm_i386_32bit.Flags.{cf, pf, zf, sf, of}
use vm_i386_32bit.Machine.{Cpu, set_var, flag, eip, ecx}
use vm_i386_32bit.Operand.{Insn, advance, target_value}
use vm_i386_32bit.Instr.Handler.{Handler}

-- The common body: the condition is read after EIP has moved on.
unfoldable pub jump_if : (Cpu → Bool) → Handler
jump_if taken insn c =
    let c = advance insn c in
    if taken c then (do val ← target_value insn.op1 c; some (set_var eip val c, 0)) else some (c, 0)

unfoldable pub jmp_i : Handler
jmp_i insn c = do val ← target_value insn.op1 c; some (set_var eip val c, 0)

unfoldable pub ja_i : Handler
ja_i = jump_if λ c. not (flag cf c) && not (flag zf c)

unfoldable pub jae_i : Handler
jae_i = jump_if λ c. not (flag cf c)

unfoldable pub jb_i : Handler
jb_i = jump_if λ c. flag cf c

unfoldable pub jbe_i : Handler
jbe_i = jump_if λ c. flag cf c || flag zf c

unfoldable pub jc_i : Handler
jc_i = jump_if λ c. flag cf c

unfoldable pub jcxz_i : Handler
jcxz_i = jump_if λ c. bit_and (c.var ecx) 0xFFFF == 0

unfoldable pub jecxz_i : Handler
jecxz_i = jump_if λ c. c.var ecx == 0

unfoldable pub je_i : Handler
je_i = jump_if λ c. flag zf c

unfoldable pub jz_i : Handler
jz_i = jump_if λ c. flag zf c

unfoldable pub jg_i : Handler
jg_i = jump_if λ c. not (flag zf c) && same_bool (flag sf c) (flag of c)

unfoldable pub jge_i : Handler
jge_i = jump_if λ c. same_bool (flag sf c) (flag of c)

unfoldable pub jl_i : Handler
jl_i = jump_if λ c. not (same_bool (flag sf c) (flag of c))

unfoldable pub jle_i : Handler
jle_i = jump_if λ c. flag zf c && not (same_bool (flag sf c) (flag of c))

unfoldable pub jna_i : Handler
jna_i = jump_if λ c. flag cf c || flag zf c

unfoldable pub jnae_i : Handler
jnae_i = jump_if λ c. flag cf c

unfoldable pub jnb_i : Handler
jnb_i = jump_if λ c. not (flag cf c)

unfoldable pub jnbe_i : Handler
jnbe_i = jump_if λ c. not (flag cf c) && not (flag zf c)

unfoldable pub jnc_i : Handler
jnc_i = jump_if λ c. not (flag cf c)

unfoldable pub jne_i : Handler
jne_i = jump_if λ c. not (flag zf c)

unfoldable pub jng_i : Handler
jng_i = jump_if λ c. flag zf c || not (same_bool (flag sf c) (flag of c))

unfoldable pub jnge_i : Handler
jnge_i = jump_if λ c. not (same_bool (flag sf c) (flag of c))

unfoldable pub jnl_i : Handler
jnl_i = jump_if λ c. same_bool (flag sf c) (flag of c)

unfoldable pub jnle_i : Handler
jnle_i = jump_if λ c. not (flag zf c) && same_bool (flag sf c) (flag of c)

unfoldable pub jno_i : Handler
jno_i = jump_if λ c. not (flag of c)

unfoldable pub jnp_i : Handler
jnp_i = jump_if λ c. not (flag pf c)

unfoldable pub jns_i : Handler
jns_i = jump_if λ c. not (flag sf c)

unfoldable pub jnz_i : Handler
jnz_i = jump_if λ c. not (flag zf c)

unfoldable pub jo_i : Handler
jo_i = jump_if λ c. flag of c

unfoldable pub jp_i : Handler
jp_i = jump_if λ c. flag pf c

unfoldable pub jpe_i : Handler
jpe_i = jump_if λ c. flag pf c

unfoldable pub jpo_i : Handler
jpo_i = jump_if λ c. not (flag pf c)

unfoldable pub js_i : Handler
js_i = jump_if λ c. flag sf c
