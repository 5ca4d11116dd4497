-- ===== src/Instr/Samples.antt =====
-- Sample instructions on the registers EAX, EBX and AL for the tests of the handlers.
use vm_i386_32bit.Base.{refl, arith}
use vm_i386_32bit.Flags.Meaning.{byte, dword}
use vm_i386_32bit.Machine.{eax, ebx, ecx}
use vm_i386_32bit.Machine.Registers.{regs, regs_size}
use vm_i386_32bit.Machine.State.{IsCpu}
use vm_i386_32bit.Operand.{Insn}
use vm_i386_32bit.Instr.Arith.Registers.{IsRegister}
use vm_i386_32bit.Examples.{start, register, immediate, nothing, instruction}

-- `OP eax, 0x20`, `OP ebx`, `OP ecx`, `OP cl` and a jump to 0x8049000.
abbrev pub on_eax : Insn
on_eax = instruction 3 (register 19 4) (immediate 0x20 1)

abbrev pub on_ebx : Insn
on_ebx = instruction 1 (register 21 4) (immediate 0x21 4)

abbrev pub on_ecx : Insn
on_ecx = instruction 1 (register 22 4) nothing

abbrev pub on_cl : Insn
on_cl = instruction 3 (register 10 1) nothing

abbrev pub jump : Insn
jump = instruction 2 (immediate 0x8049000 4) nothing

pub eax-IsRegister : IsRegister dword eax on_eax.op1
unfolding regs regs_size
eax-IsRegister = record {
  kind = refl;
  variable = refl;
  width = refl;
  size = refl;
  not_eip = refl;
  not_eflags = refl;
}

pub ebx-IsRegister : IsRegister dword ebx on_ebx.op1
unfolding regs regs_size
ebx-IsRegister = record {
  kind = refl;
  variable = refl;
  width = refl;
  size = refl;
  not_eip = refl;
  not_eflags = refl;
}

pub ecx-IsRegister : IsRegister dword ecx on_ecx.op1
unfolding regs regs_size
ecx-IsRegister = record {
  kind = refl;
  variable = refl;
  width = refl;
  size = refl;
  not_eip = refl;
  not_eflags = refl;
}

pub cl-IsRegister : IsRegister byte ecx on_cl.op1
unfolding regs regs_size
cl-IsRegister = record {
  kind = refl;
  variable = refl;
  width = refl;
  size = refl;
  not_eip = refl;
  not_eflags = refl;
}

pub start-IsCpu : IsCpu start
start-IsCpu = record { words = λ v. ground arith; bytes = λ a. omega arith }
