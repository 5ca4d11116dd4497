-- ===== src/Invariant/Sets.antt =====
-- The byte-setting instructions of src/instr.c keep machines well-formed.
use vm_i386_32bit.Instr.SetCond.{
  seta_i, setae_i, setb_i, setbe_i, setc_i, sete_i, setg_i, setge_i, setl_i, setle_i, setna_i,
  setnae_i, setnb_i, setnbe_i, setnc_i, setne_i, setng_i, setnge_i, setnl_i, setnle_i, setno_i,
  setnp_i, setns_i, seto_i, setp_i, setpe_i, setpo_i, sets_i, setz_i,
}
use vm_i386_32bit.Invariant.Rules.{Keeps}
use vm_i386_32bit.Invariant.Flow.{set_if-Keeps}

pub seta_i-Keeps : Keeps seta_i
unfolding seta_i
seta_i-Keeps = set_if-Keeps _

pub setae_i-Keeps : Keeps setae_i
unfolding setae_i
setae_i-Keeps = set_if-Keeps _

pub setb_i-Keeps : Keeps setb_i
unfolding setb_i
setb_i-Keeps = set_if-Keeps _

pub setbe_i-Keeps : Keeps setbe_i
unfolding setbe_i
setbe_i-Keeps = set_if-Keeps _

pub setc_i-Keeps : Keeps setc_i
unfolding setc_i
setc_i-Keeps = set_if-Keeps _

pub sete_i-Keeps : Keeps sete_i
unfolding sete_i
sete_i-Keeps = set_if-Keeps _

pub setg_i-Keeps : Keeps setg_i
unfolding setg_i
setg_i-Keeps = set_if-Keeps _

pub setge_i-Keeps : Keeps setge_i
unfolding setge_i
setge_i-Keeps = set_if-Keeps _

pub setl_i-Keeps : Keeps setl_i
unfolding setl_i
setl_i-Keeps = set_if-Keeps _

pub setle_i-Keeps : Keeps setle_i
unfolding setle_i
setle_i-Keeps = set_if-Keeps _

pub setna_i-Keeps : Keeps setna_i
unfolding setna_i
setna_i-Keeps = set_if-Keeps _

pub setnae_i-Keeps : Keeps setnae_i
unfolding setnae_i
setnae_i-Keeps = set_if-Keeps _

pub setnb_i-Keeps : Keeps setnb_i
unfolding setnb_i
setnb_i-Keeps = set_if-Keeps _

pub setnbe_i-Keeps : Keeps setnbe_i
unfolding setnbe_i
setnbe_i-Keeps = set_if-Keeps _

pub setnc_i-Keeps : Keeps setnc_i
unfolding setnc_i
setnc_i-Keeps = set_if-Keeps _

pub setne_i-Keeps : Keeps setne_i
unfolding setne_i
setne_i-Keeps = set_if-Keeps _

pub setng_i-Keeps : Keeps setng_i
unfolding setng_i
setng_i-Keeps = set_if-Keeps _

pub setnge_i-Keeps : Keeps setnge_i
unfolding setnge_i
setnge_i-Keeps = set_if-Keeps _

pub setnl_i-Keeps : Keeps setnl_i
unfolding setnl_i
setnl_i-Keeps = set_if-Keeps _

pub setnle_i-Keeps : Keeps setnle_i
unfolding setnle_i
setnle_i-Keeps = set_if-Keeps _

pub setno_i-Keeps : Keeps setno_i
unfolding setno_i
setno_i-Keeps = set_if-Keeps _

pub setnp_i-Keeps : Keeps setnp_i
unfolding setnp_i
setnp_i-Keeps = set_if-Keeps _

pub setns_i-Keeps : Keeps setns_i
unfolding setns_i
setns_i-Keeps = set_if-Keeps _

pub seto_i-Keeps : Keeps seto_i
unfolding seto_i
seto_i-Keeps = set_if-Keeps _

pub setp_i-Keeps : Keeps setp_i
unfolding setp_i
setp_i-Keeps = set_if-Keeps _

pub setpe_i-Keeps : Keeps setpe_i
unfolding setpe_i
setpe_i-Keeps = set_if-Keeps _

pub setpo_i-Keeps : Keeps setpo_i
unfolding setpo_i
setpo_i-Keeps = set_if-Keeps _

pub sets_i-Keeps : Keeps sets_i
unfolding sets_i
sets_i-Keeps = set_if-Keeps _

pub setz_i-Keeps : Keeps setz_i
unfolding setz_i
setz_i-Keeps = set_if-Keeps _
