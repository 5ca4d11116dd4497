-- ===== src/Dispatcher/Handlers.antt =====
-- The handlers that the dispatcher of src/instr.c calls, `instructions`, in the order of the
-- mnemonics. The host's port device and system calls are parameters.
use mathlib.Core.List.{List, [], ◌∷◌}
use vm_i386_32bit.Base.{ℕ, none}
use vm_i386_32bit.Instr.Handler.{Handler}
use vm_i386_32bit.Instr.Arith.{adc_i, add_i, cmp_i, sbb_i, sub_i}
use vm_i386_32bit.Instr.BitTest.{bsf_i, bsr_i, bt_i, btc_i, btr_i, bts_i}
use vm_i386_32bit.Instr.Convert.{cbw_i, cdq_i, cwd_i, cwde_i}
use vm_i386_32bit.Instr.Counted.{loop_i, loope_i, loopne_i, loopnz_i, loopz_i}
use vm_i386_32bit.Instr.Decimal.{aaa_i, aad_i, aam_i, aas_i, daa_i, das_i}
use vm_i386_32bit.Instr.FlagOps.{
  clc_i, cld_i, cli_i, clts_i, cmc_i, lahf_i, nop_i, sahf_i, stc_i, std_i, sti_i,
}
use vm_i386_32bit.Instr.Interrupt.{Interrupt, int_i, into_i}
use vm_i386_32bit.Instr.Jump.{
  ja_i, jae_i, jb_i, jbe_i, jc_i, jcxz_i, je_i, jecxz_i, jg_i, jge_i, jl_i, jle_i, jmp_i, jna_i,
  jnae_i, jnb_i, jnbe_i, jnc_i, jne_i, jng_i, jnge_i, jnl_i, jnle_i, jno_i, jnp_i, jns_i, jo_i,
  jp_i, jpe_i, jpo_i, js_i, jz_i,
}
use vm_i386_32bit.Instr.Logic.{and_i, not_i, or_i, test_i, xor_i}
use vm_i386_32bit.Instr.Move.{lea_i, mov_i, movsx_i, movzx_i, xchg_i, xlat_i}
use vm_i386_32bit.Instr.MulDiv.{div_i, mul_i}
use vm_i386_32bit.Instr.Port.{
  Ports, in_i, ins_i, insb_i, insd_i, insw_i, out_i, outs_i, outsb_i, outsd_i, outsw_i,
}
use vm_i386_32bit.Instr.Rotate.{rcl_i, rcr_i, rol_i, ror_i, shrd_i}
use vm_i386_32bit.Instr.Segment.{
  arpl_i, bound_i, lar_i, lds_i, les_i, lfs_i, lgdt_i, lgs_i, lidt_i, lldt_i, lmsw_i, lsl_i, lss_i,
  sgdt_i, sidt_i, sldt_i, smsw_i, verr_i, verw_i,
}
use vm_i386_32bit.Instr.SetCond.{
  seta_i, setae_i, setb_i, setbe_i, setc_i, sete_i, setg_i, setge_i, setl_i, setle_i, setna_i,
  setnae_i, setnb_i, setnbe_i, setnc_i, setne_i, setng_i, setnge_i, setnl_i, setnle_i, setno_i,
  setnp_i, setns_i, seto_i, setp_i, setpe_i, setpo_i, sets_i, setz_i,
}
use vm_i386_32bit.Instr.Shift.{sal_i, sar_i, shl_i, shr_i}
use vm_i386_32bit.Instr.SignedMul.{idiv_i, imul_i}
use vm_i386_32bit.Instr.Stack.{
  call_i, leave_i, pop_i, popa_i, popad_i, popf_i, popfd_i, push_i, pusha_i, pushad_i, pushf_i,
  pushfd_i, ret_i,
}
use vm_i386_32bit.Instr.Strings.{
  cmpsb_i, cmpsd_i, cmpsw_i, lods_i, lodsb_i, lodsd_i, lodsw_i, movs_i, rep_ins_i, rep_movs_i,
  rep_outs_i, rep_stos_i, scas_i, stos_i,
}
use vm_i386_32bit.Instr.Unary.{dec_i, inc_i, neg_i}
use vm_i386_32bit.Instr.Unimplemented.{hlt_i, iret_i, iretd_i, lock_i, ltr_i, shld_i, wait_i}

-- What the handlers ask of the host; `leftover` is the result of a handler without a `return`.
pub record Host : Type 0 where
  pub ports : Ports
  pub syscalls : ℕ → Interrupt
  pub leftover : ℕ

-- The last entry is NULL, which a call cannot follow.
abbrev null_handler : Handler
null_handler insn c = none

abbrev pub instructions : Host → List Handler
instructions host =
    aaa_i
    ∷ aad_i
    ∷ aam_i
    ∷ aas_i
    ∷ adc_i
    ∷ add_i
    ∷ and_i
    ∷ arpl_i
    ∷ bound_i
    ∷ bsf_i
    ∷ bsr_i
    ∷ bt_i
    ∷ btc_i
    ∷ btr_i
    ∷ bts_i
    ∷ call_i
    ∷ cbw_i
    ∷ cwde_i
    ∷ clc_i
    ∷ cld_i
    ∷ cli_i
    ∷ clts_i
    ∷ cmc_i
    ∷ cmp_i
    ∷ cmpsb_i
    ∷ cmpsw_i
    ∷ cmpsd_i
    ∷ cwd_i
    ∷ cdq_i
    ∷ daa_i
    ∷ das_i
    ∷ dec_i
    ∷ div_i
    ∷ hlt_i
    ∷ idiv_i
    ∷ imul_i
    ∷ in_i host.ports
    ∷ inc_i
    ∷ ins_i host.ports
    ∷ insb_i host.ports
    ∷ insw_i host.ports
    ∷ insd_i host.ports
    ∷ int_i host.syscalls
    ∷ into_i host.syscalls
    ∷ iret_i
    ∷ iretd_i
    ∷ ja_i
    ∷ jae_i
    ∷ jb_i
    ∷ jbe_i
    ∷ jc_i
    ∷ jcxz_i
    ∷ jecxz_i
    ∷ je_i
    ∷ jg_i
    ∷ jge_i
    ∷ jl_i
    ∷ jle_i
    ∷ jmp_i
    ∷ jna_i
    ∷ jnae_i
    ∷ jnb_i
    ∷ jnbe_i
    ∷ jnc_i
    ∷ jne_i
    ∷ jng_i
    ∷ jnge_i
    ∷ jnl_i
    ∷ jnle_i
    ∷ jno_i
    ∷ jnp_i
    ∷ jns_i
    ∷ jo_i
    ∷ jp_i
    ∷ jpe_i
    ∷ jpo_i
    ∷ js_i
    ∷ jz_i
    ∷ lahf_i
    ∷ lar_i
    ∷ lea_i
    ∷ leave_i
    ∷ lgdt_i
    ∷ lidt_i
    ∷ les_i
    ∷ lfs_i
    ∷ lgs_i
    ∷ lds_i
    ∷ lss_i
    ∷ lldt_i
    ∷ lmsw_i
    ∷ lock_i
    ∷ lods_i
    ∷ lodsb_i
    ∷ lodsw_i
    ∷ lodsd_i
    ∷ loop_i
    ∷ loope_i
    ∷ loopne_i
    ∷ loopnz_i
    ∷ loopz_i
    ∷ lsl_i
    ∷ ltr_i
    ∷ mov_i
    ∷ movs_i
    ∷ movs_i
    ∷ movs_i
    ∷ movs_i
    ∷ movsx_i
    ∷ movzx_i
    ∷ mul_i
    ∷ neg_i
    ∷ nop_i
    ∷ not_i
    ∷ or_i
    ∷ out_i host.ports
    ∷ outs_i host.ports
    ∷ outsb_i host.ports
    ∷ outsw_i host.ports
    ∷ outsd_i host.ports
    ∷ pop_i
    ∷ popa_i
    ∷ popad_i
    ∷ popf_i
    ∷ popfd_i
    ∷ push_i
    ∷ pusha_i
    ∷ pushad_i
    ∷ pushf_i
    ∷ pushfd_i
    ∷ rcl_i
    ∷ rcr_i
    ∷ rol_i
    ∷ ror_i
    ∷ ret_i
    ∷ sahf_i
    ∷ sal_i
    ∷ sar_i
    ∷ shl_i
    ∷ shr_i
    ∷ sbb_i
    ∷ scas_i
    ∷ scas_i
    ∷ scas_i
    ∷ scas_i
    ∷ seta_i
    ∷ setae_i
    ∷ setb_i
    ∷ setbe_i
    ∷ setc_i
    ∷ sete_i
    ∷ setg_i
    ∷ setge_i
    ∷ setl_i
    ∷ setle_i
    ∷ setna_i
    ∷ setnae_i
    ∷ setnb_i
    ∷ setnbe_i
    ∷ setnc_i
    ∷ setne_i
    ∷ setng_i
    ∷ setnge_i
    ∷ setnl_i
    ∷ setnle_i
    ∷ setno_i
    ∷ setnp_i
    ∷ setns_i
    ∷ seto_i
    ∷ setp_i
    ∷ setpe_i
    ∷ setpo_i
    ∷ sets_i
    ∷ setz_i
    ∷ sgdt_i
    ∷ sidt_i
    ∷ shld_i
    ∷ shrd_i
    ∷ sldt_i
    ∷ smsw_i
    ∷ stc_i
    ∷ std_i
    ∷ sti_i
    ∷ stos_i host.leftover
    ∷ stos_i host.leftover
    ∷ stos_i host.leftover
    ∷ stos_i host.leftover
    ∷ sub_i
    ∷ test_i
    ∷ verr_i host.leftover
    ∷ verw_i
    ∷ wait_i
    ∷ xchg_i
    ∷ xlat_i
    ∷ xlat_i
    ∷ xor_i
    ∷ rep_ins_i
    ∷ rep_movs_i
    ∷ rep_movs_i
    ∷ rep_movs_i
    ∷ rep_outs_i
    ∷ rep_stos_i
    ∷ rep_stos_i
    ∷ rep_stos_i
    ∷ null_handler
    ∷ []
