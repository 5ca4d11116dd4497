-- ===== src/Invariant/Table.antt =====
-- Every handler in the table of the dispatcher keeps machines well-formed.
use mathlib.Core.List.{List, [], ◌∷◌}
use vm_i386_32bit.Base.{ℕ, zero, suc, none, get_or}
use vm_i386_32bit.Instr.Handler.{Handler}
use vm_i386_32bit.Dispatcher.Handlers.{Host, instructions}
use vm_i386_32bit.Invariant.Rules.{undefined, Keeps}
use vm_i386_32bit.Instr.Counted.{loop_i, loope_i, loopne_i, loopnz_i, loopz_i}
use vm_i386_32bit.Invariant.Accumulator.{
  aaa_i-Keeps, aad_i-Keeps, aam_i-Keeps, aas_i-Keeps, cbw_i-Keeps, cdq_i-Keeps, clc_i-Keeps,
  cld_i-Keeps, cli_i-Keeps, clts_i-Keeps, cmc_i-Keeps, cwd_i-Keeps, cwde_i-Keeps, daa_i-Keeps,
  das_i-Keeps, div_i-Keeps, lahf_i-Keeps, mul_i-Keeps, nop_i-Keeps, sahf_i-Keeps, stc_i-Keeps,
  std_i-Keeps, sti_i-Keeps,
}
use vm_i386_32bit.Invariant.Arith.{
  adc_i-Keeps, add_i-Keeps, cmp_i-Keeps, dec_i-Keeps, inc_i-Keeps, neg_i-Keeps, sbb_i-Keeps,
  sub_i-Keeps,
}
use vm_i386_32bit.Invariant.Jumps.{
  ja_i-Keeps, jae_i-Keeps, jb_i-Keeps, jbe_i-Keeps, jc_i-Keeps, jcxz_i-Keeps, jecxz_i-Keeps,
  je_i-Keeps, jg_i-Keeps, jge_i-Keeps, jl_i-Keeps, jle_i-Keeps, jna_i-Keeps, jnae_i-Keeps,
  jnb_i-Keeps, jnbe_i-Keeps, jnc_i-Keeps, jne_i-Keeps, jng_i-Keeps, jnge_i-Keeps, jnl_i-Keeps,
  jnle_i-Keeps, jno_i-Keeps, jnp_i-Keeps, jns_i-Keeps, jo_i-Keeps, jp_i-Keeps, jpe_i-Keeps,
  jpo_i-Keeps, js_i-Keeps, jz_i-Keeps,
}
use vm_i386_32bit.Invariant.Sets.{
  seta_i-Keeps, setae_i-Keeps, setb_i-Keeps, setbe_i-Keeps, setc_i-Keeps, sete_i-Keeps,
  setg_i-Keeps, setge_i-Keeps, setl_i-Keeps, setle_i-Keeps, setna_i-Keeps, setnae_i-Keeps,
  setnb_i-Keeps, setnbe_i-Keeps, setnc_i-Keeps, setne_i-Keeps, setng_i-Keeps, setnge_i-Keeps,
  setnl_i-Keeps, setnle_i-Keeps, setno_i-Keeps, setnp_i-Keeps, setns_i-Keeps, seto_i-Keeps,
  setp_i-Keeps, setpe_i-Keeps, setpo_i-Keeps, sets_i-Keeps, setz_i-Keeps,
}
use vm_i386_32bit.Invariant.Flow.{jmp_i-Keeps, loop_if-Keeps}
use vm_i386_32bit.Invariant.Logic.{
  and_i-Keeps, lea_i-Keeps, mov_i-Keeps, movsx_i-Keeps, movzx_i-Keeps, not_i-Keeps, or_i-Keeps,
  test_i-Keeps, xchg_i-Keeps, xlat_i-Keeps, xor_i-Keeps,
}
use vm_i386_32bit.Invariant.Shift.{
  bsf_i-Keeps, bsr_i-Keeps, bt_i-Keeps, btc_i-Keeps, btr_i-Keeps, bts_i-Keeps, rcl_i-Keeps,
  rcr_i-Keeps, rol_i-Keeps, ror_i-Keeps, sal_i-Keeps, sar_i-Keeps, shl_i-Keeps, shr_i-Keeps,
  shrd_i-Keeps,
}
use vm_i386_32bit.Invariant.SignedMul.{idiv_i-Keeps, imul_i-Keeps}
use vm_i386_32bit.Invariant.Stack.{
  call_i-Keeps, leave_i-Keeps, pop_i-Keeps, popa_i-Keeps, popad_i-Keeps, popf_i-Keeps,
  popfd_i-Keeps, push_i-Keeps, pusha_i-Keeps, pushad_i-Keeps, pushf_i-Keeps, pushfd_i-Keeps,
  ret_i-Keeps,
}
use vm_i386_32bit.Invariant.Strings.{
  cmpsb_i-Keeps, cmpsd_i-Keeps, cmpsw_i-Keeps, lods_i-Keeps, lodsb_i-Keeps, lodsd_i-Keeps,
  lodsw_i-Keeps, movs_i-Keeps, rep_ins_i-Keeps, rep_movs_i-Keeps, rep_outs_i-Keeps,
  rep_stos_i-Keeps, scas_i-Keeps, stos_i-Keeps,
}
use vm_i386_32bit.Invariant.System.{
  KeepsCpu, arpl_i-Keeps, bound_i-Keeps, hlt_i-Keeps, in_i-Keeps, ins_i-Keeps, insb_i-Keeps,
  insd_i-Keeps, insw_i-Keeps, int_i-Keeps, into_i-Keeps, iret_i-Keeps, iretd_i-Keeps, lar_i-Keeps,
  lds_i-Keeps, les_i-Keeps, lfs_i-Keeps, lgdt_i-Keeps, lgs_i-Keeps, lidt_i-Keeps, lldt_i-Keeps,
  lmsw_i-Keeps, lock_i-Keeps, lsl_i-Keeps, lss_i-Keeps, ltr_i-Keeps, out_i-Keeps, outs_i-Keeps,
  outsb_i-Keeps, outsd_i-Keeps, outsw_i-Keeps, sgdt_i-Keeps, shld_i-Keeps, sidt_i-Keeps,
  sldt_i-Keeps, smsw_i-Keeps, verr_i-Keeps, verw_i-Keeps, wait_i-Keeps,
}

-- Every entry of a list of handlers keeps them, and so does what stands for an index outside it.
infixr 5 ◌▸◌
pub data KeepAll : List Handler → Type 0 where
  done : KeepAll []
  ◌▸◌ : {h : Handler} {hs : List Handler} → Keeps h → KeepAll hs → KeepAll (h ∷ hs)

pub get_or-Keeps : (hs : List Handler) → KeepAll hs → (i : ℕ) → Keeps (get_or hs i (λ insn c. none))
get_or-Keeps [] done i = λ insn c ok. undefined
get_or-Keeps (h ∷ hs) (k ▸ ks) zero = k
get_or-Keeps (h ∷ hs) (k ▸ ks) (suc i) = get_or-Keeps hs ks i

null-Keeps : Keeps (λ insn c. none)
null-Keeps insn c ok = undefined

loop_i-Keeps : Keeps loop_i
unfolding loop_i
loop_i-Keeps = loop_if-Keeps _

loope_i-Keeps : Keeps loope_i
unfolding loope_i
loope_i-Keeps = loop_if-Keeps _

loopne_i-Keeps : Keeps loopne_i
unfolding loopne_i
loopne_i-Keeps = loop_if-Keeps _

loopnz_i-Keeps : Keeps loopnz_i
unfolding loopnz_i
loopnz_i-Keeps = loop_if-Keeps _

loopz_i-Keeps : Keeps loopz_i
unfolding loopz_i
loopz_i-Keeps = loop_if-Keeps _

pub instructions-KeepAll :
    (host : Host) → ((n : ℕ) → KeepsCpu (host.syscalls n)) → KeepAll (instructions host)
instructions-KeepAll host keeps =
    aaa_i-Keeps
    ▸ aad_i-Keeps
    ▸ aam_i-Keeps
    ▸ aas_i-Keeps
    ▸ adc_i-Keeps
    ▸ add_i-Keeps
    ▸ and_i-Keeps
    ▸ arpl_i-Keeps
    ▸ bound_i-Keeps
    ▸ bsf_i-Keeps
    ▸ bsr_i-Keeps
    ▸ bt_i-Keeps
    ▸ btc_i-Keeps
    ▸ btr_i-Keeps
    ▸ bts_i-Keeps
    ▸ call_i-Keeps
    ▸ cbw_i-Keeps
    ▸ cwde_i-Keeps
    ▸ clc_i-Keeps
    ▸ cld_i-Keeps
    ▸ cli_i-Keeps
    ▸ clts_i-Keeps
    ▸ cmc_i-Keeps
    ▸ cmp_i-Keeps
    ▸ cmpsb_i-Keeps
    ▸ cmpsw_i-Keeps
    ▸ cmpsd_i-Keeps
    ▸ cwd_i-Keeps
    ▸ cdq_i-Keeps
    ▸ daa_i-Keeps
    ▸ das_i-Keeps
    ▸ dec_i-Keeps
    ▸ div_i-Keeps
    ▸ hlt_i-Keeps
    ▸ idiv_i-Keeps
    ▸ imul_i-Keeps
    ▸ in_i-Keeps host.ports
    ▸ inc_i-Keeps
    ▸ ins_i-Keeps host.ports
    ▸ insb_i-Keeps host.ports
    ▸ insw_i-Keeps host.ports
    ▸ insd_i-Keeps host.ports
    ▸ int_i-Keeps host.syscalls keeps
    ▸ into_i-Keeps host.syscalls keeps
    ▸ iret_i-Keeps
    ▸ iretd_i-Keeps
    ▸ ja_i-Keeps
    ▸ jae_i-Keeps
    ▸ jb_i-Keeps
    ▸ jbe_i-Keeps
    ▸ jc_i-Keeps
    ▸ jcxz_i-Keeps
    ▸ jecxz_i-Keeps
    ▸ je_i-Keeps
    ▸ jg_i-Keeps
    ▸ jge_i-Keeps
    ▸ jl_i-Keeps
    ▸ jle_i-Keeps
    ▸ jmp_i-Keeps
    ▸ jna_i-Keeps
    ▸ jnae_i-Keeps
    ▸ jnb_i-Keeps
    ▸ jnbe_i-Keeps
    ▸ jnc_i-Keeps
    ▸ jne_i-Keeps
    ▸ jng_i-Keeps
    ▸ jnge_i-Keeps
    ▸ jnl_i-Keeps
    ▸ jnle_i-Keeps
    ▸ jno_i-Keeps
    ▸ jnp_i-Keeps
    ▸ jns_i-Keeps
    ▸ jo_i-Keeps
    ▸ jp_i-Keeps
    ▸ jpe_i-Keeps
    ▸ jpo_i-Keeps
    ▸ js_i-Keeps
    ▸ jz_i-Keeps
    ▸ lahf_i-Keeps
    ▸ lar_i-Keeps
    ▸ lea_i-Keeps
    ▸ leave_i-Keeps
    ▸ lgdt_i-Keeps
    ▸ lidt_i-Keeps
    ▸ les_i-Keeps
    ▸ lfs_i-Keeps
    ▸ lgs_i-Keeps
    ▸ lds_i-Keeps
    ▸ lss_i-Keeps
    ▸ lldt_i-Keeps
    ▸ lmsw_i-Keeps
    ▸ lock_i-Keeps
    ▸ lods_i-Keeps
    ▸ lodsb_i-Keeps
    ▸ lodsw_i-Keeps
    ▸ lodsd_i-Keeps
    ▸ loop_i-Keeps
    ▸ loope_i-Keeps
    ▸ loopne_i-Keeps
    ▸ loopnz_i-Keeps
    ▸ loopz_i-Keeps
    ▸ lsl_i-Keeps
    ▸ ltr_i-Keeps
    ▸ mov_i-Keeps
    ▸ movs_i-Keeps
    ▸ movs_i-Keeps
    ▸ movs_i-Keeps
    ▸ movs_i-Keeps
    ▸ movsx_i-Keeps
    ▸ movzx_i-Keeps
    ▸ mul_i-Keeps
    ▸ neg_i-Keeps
    ▸ nop_i-Keeps
    ▸ not_i-Keeps
    ▸ or_i-Keeps
    ▸ out_i-Keeps host.ports
    ▸ outs_i-Keeps host.ports
    ▸ outsb_i-Keeps host.ports
    ▸ outsw_i-Keeps host.ports
    ▸ outsd_i-Keeps host.ports
    ▸ pop_i-Keeps
    ▸ popa_i-Keeps
    ▸ popad_i-Keeps
    ▸ popf_i-Keeps
    ▸ popfd_i-Keeps
    ▸ push_i-Keeps
    ▸ pusha_i-Keeps
    ▸ pushad_i-Keeps
    ▸ pushf_i-Keeps
    ▸ pushfd_i-Keeps
    ▸ rcl_i-Keeps
    ▸ rcr_i-Keeps
    ▸ rol_i-Keeps
    ▸ ror_i-Keeps
    ▸ ret_i-Keeps
    ▸ sahf_i-Keeps
    ▸ sal_i-Keeps
    ▸ sar_i-Keeps
    ▸ shl_i-Keeps
    ▸ shr_i-Keeps
    ▸ sbb_i-Keeps
    ▸ scas_i-Keeps
    ▸ scas_i-Keeps
    ▸ scas_i-Keeps
    ▸ scas_i-Keeps
    ▸ seta_i-Keeps
    ▸ setae_i-Keeps
    ▸ setb_i-Keeps
    ▸ setbe_i-Keeps
    ▸ setc_i-Keeps
    ▸ sete_i-Keeps
    ▸ setg_i-Keeps
    ▸ setge_i-Keeps
    ▸ setl_i-Keeps
    ▸ setle_i-Keeps
    ▸ setna_i-Keeps
    ▸ setnae_i-Keeps
    ▸ setnb_i-Keeps
    ▸ setnbe_i-Keeps
    ▸ setnc_i-Keeps
    ▸ setne_i-Keeps
    ▸ setng_i-Keeps
    ▸ setnge_i-Keeps
    ▸ setnl_i-Keeps
    ▸ setnle_i-Keeps
    ▸ setno_i-Keeps
    ▸ setnp_i-Keeps
    ▸ setns_i-Keeps
    ▸ seto_i-Keeps
    ▸ setp_i-Keeps
    ▸ setpe_i-Keeps
    ▸ setpo_i-Keeps
    ▸ sets_i-Keeps
    ▸ setz_i-Keeps
    ▸ sgdt_i-Keeps
    ▸ sidt_i-Keeps
    ▸ shld_i-Keeps
    ▸ shrd_i-Keeps
    ▸ sldt_i-Keeps
    ▸ smsw_i-Keeps
    ▸ stc_i-Keeps
    ▸ std_i-Keeps
    ▸ sti_i-Keeps
    ▸ stos_i-Keeps host.leftover
    ▸ stos_i-Keeps host.leftover
    ▸ stos_i-Keeps host.leftover
    ▸ stos_i-Keeps host.leftover
    ▸ sub_i-Keeps
    ▸ test_i-Keeps
    ▸ verr_i-Keeps host.leftover
    ▸ verw_i-Keeps
    ▸ wait_i-Keeps
    ▸ xchg_i-Keeps
    ▸ xlat_i-Keeps
    ▸ xlat_i-Keeps
    ▸ xor_i-Keeps
    ▸ rep_ins_i-Keeps
    ▸ rep_movs_i-Keeps
    ▸ rep_movs_i-Keeps
    ▸ rep_movs_i-Keeps
    ▸ rep_outs_i-Keeps
    ▸ rep_stos_i-Keeps
    ▸ rep_stos_i-Keeps
    ▸ rep_stos_i-Keeps
    ▸ null-Keeps
    ▸ done
