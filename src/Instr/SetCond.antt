-- ===== src/Instr/SetCond.antt =====
-- The instructions of src/instr.c that set a byte on a condition. Their bodies differ in the
-- condition alone.
pub mod Pairs
mod Tests
use vm_i386_32bit.Base.{Bool, some, not, ◌&&◌, ◌||◌, same_bool, if◌then◌else◌, ◌>>=◌}
use vm_i386_32bit.Flags.{cf, pf, zf, sf, of}
use vm_i386_32bit.Machine.{Cpu, flag, store}
use vm_i386_32bit.Operand.{advance, place_of}
use vm_i386_32bit.Instr.Handler.{Handler}

-- The common body: one byte is written, 1 or 0.
unfoldable pub set_if : (Cpu → Bool) → Handler
set_if holds insn c = do
  let c = advance insn c
  p ← place_of insn.op1 c
  c ← store 1 p (if holds c then 0x1 else 0x0) c
  some (c, 0)

unfoldable pub seta_i : Handler
seta_i = set_if λ c. not (flag cf c) && not (flag zf c)

unfoldable pub setae_i : Handler
setae_i = set_if λ c. not (flag cf c)

unfoldable pub setb_i : Handler
setb_i = set_if λ c. flag cf c

unfoldable pub setbe_i : Handler
setbe_i = set_if λ c. flag cf c || flag zf c

unfoldable pub setc_i : Handler
setc_i = set_if λ c. flag cf c

unfoldable pub sete_i : Handler
sete_i = set_if λ c. flag zf c

unfoldable pub setg_i : Handler
setg_i = set_if λ c. not (flag zf c) || same_bool (flag of c) (flag sf c)

unfoldable pub setge_i : Handler
setge_i = set_if λ c. same_bool (flag of c) (flag sf c)

unfoldable pub setl_i : Handler
setl_i = set_if λ c. not (same_bool (flag of c) (flag sf c))

unfoldable pub setle_i : Handler
setle_i = set_if λ c. not (same_bool (flag of c) (flag sf c)) && flag zf c

unfoldable pub setna_i : Handler
setna_i = set_if λ c. flag cf c

unfoldable pub setnae_i : Handler
setnae_i = set_if λ c. flag cf c

unfoldable pub setnb_i : Handler
setnb_i = set_if λ c. not (flag cf c)

unfoldable pub setnbe_i : Handler
setnbe_i = set_if λ c. not (flag cf c) && not (flag zf c)

unfoldable pub setnc_i : Handler
setnc_i = set_if λ c. not (flag cf c)

unfoldable pub setne_i : Handler
setne_i = set_if λ c. not (flag zf c)

unfoldable pub setng_i : Handler
setng_i = set_if λ c. flag zf c || not (same_bool (flag of c) (flag sf c))

unfoldable pub setnge_i : Handler
setnge_i = set_if λ c. not (same_bool (flag of c) (flag sf c))

unfoldable pub setnl_i : Handler
setnl_i = set_if λ c. same_bool (flag of c) (flag sf c)

unfoldable pub setnle_i : Handler
setnle_i = set_if λ c. flag zf c && not (same_bool (flag of c) (flag sf c))

unfoldable pub setno_i : Handler
setno_i = set_if λ c. not (flag of c)

unfoldable pub setnp_i : Handler
setnp_i = set_if λ c. not (flag pf c)

unfoldable pub setns_i : Handler
setns_i = set_if λ c. not (flag sf c)

unfoldable pub seto_i : Handler
seto_i = set_if λ c. flag of c

unfoldable pub setp_i : Handler
setp_i = set_if λ c. flag pf c

unfoldable pub setpe_i : Handler
setpe_i = set_if λ c. flag pf c

unfoldable pub setpo_i : Handler
setpo_i = set_if λ c. not (flag pf c)

unfoldable pub sets_i : Handler
sets_i = set_if λ c. flag sf c

unfoldable pub setz_i : Handler
setz_i = set_if λ c. flag zf c
