-- ===== src/Invariant/Dispatch.antt =====
-- The start and the dispatcher of src/instr.c keep machines well-formed.
mod Tests
use vm_i386_32bit.Base.{ℕ, zero, suc, ◌+◌, ◌*◌, ◌^◌, ◌<◌, arith, Option, none, some}
use Prim.Native.String.{String}
use vm_i386_32bit.Machine.{Cpu, Var, Gdtr, set_var, esp, cs, ds, ss, es, fs, gs}
use vm_i386_32bit.Machine.State.{IsCpu}
use vm_i386_32bit.Operand.{Insn, gdt_entries}
use vm_i386_32bit.Dispatcher.{search_from, call_found, dispatcher}
use vm_i386_32bit.Dispatcher.Names.{inss}
use vm_i386_32bit.Dispatcher.Handlers.{Host, instructions}
use vm_i386_32bit.Startup.{
  stack_bottom, gdt_addr, gdt_access, gdt_granularity, init_entry, init_gdt, initialize,
}
use vm_i386_32bit.Invariant.Rules.{
  Gives, gives, Gives-if, Gives-write, Gives-bind, Keeps, Runs, set_var-IsCpu, store_bytes-IsCpu,
}
use vm_i386_32bit.Invariant.System.{KeepsCpu}
use vm_i386_32bit.Invariant.Table.{instructions-KeepAll, get_or-Keeps}

module _ (host : Host) (keeps : (n : ℕ) → KeepsCpu (host.syscalls n)) where
  call_found-Runs :
      (found : Option ℕ) (insn : Insn) (c : Cpu) → IsCpu c → Runs (call_found host found insn c)
  unfolding call_found
  call_found-Runs (some i) = get_or-Keeps (instructions host) (instructions-KeepAll host keeps) i
  call_found-Runs none = λ insn c ok. gives ok

  pub dispatcher-Keeps : (mnemonic : String) → Keeps (dispatcher host mnemonic)
  unfolding dispatcher
  dispatcher-Keeps mnemonic = call_found-Runs (search_from mnemonic inss 0)

init_entry-IsCpu : (p i : ℕ) (c : Cpu) → IsCpu c → Gives IsCpu (init_entry p i c)
unfolding init_entry
init_entry-IsCpu p i c ok = search (gives, Gives-if, Gives-write, store_bytes-IsCpu) depth 20

init_gdt-IsCpu : (n table : ℕ) (c : Cpu) → IsCpu c → Gives IsCpu (init_gdt n table c)
unfolding init_gdt
init_gdt-IsCpu zero table c ok = gives ok
init_gdt-IsCpu (suc n) table c ok =
    Gives-write (init_gdt-IsCpu n table c ok) λ d k. init_entry-IsCpu _ n d k

pub initialize-Runs : (c : Cpu) → ((v : Var) → c.var v < 2 ^ 32) → Runs (initialize c)
unfolding initialize
initialize-Runs c words =
    let ok : IsCpu (record c { mem = λ a. 0 }) = record {
      words = words;
      bytes = λ a. omega arith;
    } in
    let ok = set_var-IsCpu esp stack_bottom _ (omega arith) ok in
    let ok = set_var-IsCpu cs 0x23 _ (omega arith) ok in
    let ok = set_var-IsCpu ds 0x2b _ (omega arith) ok in
    let ok = set_var-IsCpu ss 0x2b _ (omega arith) ok in
    let ok = set_var-IsCpu es 0x2b _ (omega arith) ok in
    let ok = set_var-IsCpu fs 0x00 _ (omega arith) ok in
    let ok = set_var-IsCpu gs 0x00 _ (omega arith) ok in
    Gives-write (init_gdt-IsCpu gdt_entries gdt_addr _ ok)
      λ d k. gives (record { words = k.words; bytes = k.bytes })
