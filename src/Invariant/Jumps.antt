-- ===== src/Invariant/Jumps.antt =====
-- The conditional jumps of src/instr.c keep machines well-formed.
use vm_i386_32bit.Instr.Jump.{
  ja_i, jae_i, jb_i, jbe_i, jc_i, jcxz_i, jecxz_i, je_i, jg_i, jge_i, jl_i, jle_i, jna_i, jnae_i,
  jnb_i, jnbe_i, jnc_i, jne_i, jng_i, jnge_i, jnl_i, jnle_i, jno_i, jnp_i, jns_i, jo_i, jp_i, jpe_i,
  jpo_i, js_i, jz_i,
}
use vm_i386_32bit.Invariant.Rules.{Keeps}
use vm_i386_32bit.Invariant.Flow.{jump_if-Keeps}

pub ja_i-Keeps : Keeps ja_i
unfolding ja_i
ja_i-Keeps = jump_if-Keeps _

pub jae_i-Keeps : Keeps jae_i
unfolding jae_i
jae_i-Keeps = jump_if-Keeps _

pub jb_i-Keeps : Keeps jb_i
unfolding jb_i
jb_i-Keeps = jump_if-Keeps _

pub jbe_i-Keeps : Keeps jbe_i
unfolding jbe_i
jbe_i-Keeps = jump_if-Keeps _

pub jc_i-Keeps : Keeps jc_i
unfolding jc_i
jc_i-Keeps = jump_if-Keeps _

pub jcxz_i-Keeps : Keeps jcxz_i
unfolding jcxz_i
jcxz_i-Keeps = jump_if-Keeps _

pub jecxz_i-Keeps : Keeps jecxz_i
unfolding jecxz_i
jecxz_i-Keeps = jump_if-Keeps _

pub je_i-Keeps : Keeps je_i
unfolding je_i
je_i-Keeps = jump_if-Keeps _

pub jg_i-Keeps : Keeps jg_i
unfolding jg_i
jg_i-Keeps = jump_if-Keeps _

pub jge_i-Keeps : Keeps jge_i
unfolding jge_i
jge_i-Keeps = jump_if-Keeps _

pub jl_i-Keeps : Keeps jl_i
unfolding jl_i
jl_i-Keeps = jump_if-Keeps _

pub jle_i-Keeps : Keeps jle_i
unfolding jle_i
jle_i-Keeps = jump_if-Keeps _

pub jna_i-Keeps : Keeps jna_i
unfolding jna_i
jna_i-Keeps = jump_if-Keeps _

pub jnae_i-Keeps : Keeps jnae_i
unfolding jnae_i
jnae_i-Keeps = jump_if-Keeps _

pub jnb_i-Keeps : Keeps jnb_i
unfolding jnb_i
jnb_i-Keeps = jump_if-Keeps _

pub jnbe_i-Keeps : Keeps jnbe_i
unfolding jnbe_i
jnbe_i-Keeps = jump_if-Keeps _

pub jnc_i-Keeps : Keeps jnc_i
unfolding jnc_i
jnc_i-Keeps = jump_if-Keeps _

pub jne_i-Keeps : Keeps jne_i
unfolding jne_i
jne_i-Keeps = jump_if-Keeps _

pub jng_i-Keeps : Keeps jng_i
unfolding jng_i
jng_i-Keeps = jump_if-Keeps _

pub jnge_i-Keeps : Keeps jnge_i
unfolding jnge_i
jnge_i-Keeps = jump_if-Keeps _

pub jnl_i-Keeps : Keeps jnl_i
unfolding jnl_i
jnl_i-Keeps = jump_if-Keeps _

pub jnle_i-Keeps : Keeps jnle_i
unfolding jnle_i
jnle_i-Keeps = jump_if-Keeps _

pub jno_i-Keeps : Keeps jno_i
unfolding jno_i
jno_i-Keeps = jump_if-Keeps _

pub jnp_i-Keeps : Keeps jnp_i
unfolding jnp_i
jnp_i-Keeps = jump_if-Keeps _

pub jns_i-Keeps : Keeps jns_i
unfolding jns_i
jns_i-Keeps = jump_if-Keeps _

pub jo_i-Keeps : Keeps jo_i
unfolding jo_i
jo_i-Keeps = jump_if-Keeps _

pub jp_i-Keeps : Keeps jp_i
unfolding jp_i
jp_i-Keeps = jump_if-Keeps _

pub jpe_i-Keeps : Keeps jpe_i
unfolding jpe_i
jpe_i-Keeps = jump_if-Keeps _

pub jpo_i-Keeps : Keeps jpo_i
unfolding jpo_i
jpo_i-Keeps = jump_if-Keeps _

pub js_i-Keeps : Keeps js_i
unfolding js_i
js_i-Keeps = jump_if-Keeps _

pub jz_i-Keeps : Keeps jz_i
unfolding jz_i
jz_i-Keeps = jump_if-Keeps _
