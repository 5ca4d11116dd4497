-- ===== src/Examples.antt =====
-- A machine and instructions for the tests: what `initialize` leaves in the registers, with some
-- values put into the general ones, over a memory of zeros.
use vm_i386_32bit.Base.{ℕ}
use vm_i386_32bit.Machine.{
  Cpu, Var, eax, ebx, ecx, edx, esp, ebp, esi, edi, eip, eflags, cs, ds, ss, es, fs, gs,
}
use vm_i386_32bit.Operand.{MemOp, Operand, Insn, op_invalid, op_reg, op_imm, op_mem}

abbrev start_var : Var → ℕ
start_var eax = 0xFFFFFFF0
start_var ebx = 0x20
start_var ecx = 3
start_var edx = 0x80000000
start_var esp = 0xFFF00000
start_var ebp = 0xFFF00010
start_var esi = 0x1000
start_var edi = 0x2000
start_var eip = 0x8048000
start_var eflags = 0x202
start_var cs = 0x23
start_var ds = 0x2b
start_var ss = 0x2b
start_var es = 0x2b
start_var fs = 0
start_var gs = 0

abbrev pub start : Cpu
start = record {
  var = start_var;
  mem = λ a. 0;
  gdtr = record { limit = 90; base = 0xC0FFF000 };
  idtr = record { limit = 0; base = 0 };
  ldtr = 0;
  cr0 = 0;
}

abbrev no_mem : MemOp
no_mem = record { segment = 0; base = 0; index = 0; scale = 1; disp = 0 }

abbrev pub nothing : Operand
nothing = record { kind = op_invalid; reg = 0; imm = 0; mem = no_mem; size = 0 }

-- A register by Capstone's number, an immediate, and memory at a displacement from a register.
abbrev pub register : (r size : ℕ) → Operand
register r size = record { kind = op_reg; reg = r; imm = 0; mem = no_mem; size = size }

abbrev pub immediate : (x size : ℕ) → Operand
immediate x size = record { kind = op_imm; reg = 0; imm = x; mem = no_mem; size = size }

abbrev pub memory : (base disp size : ℕ) → Operand
memory base disp size = record {
  kind = op_mem;
  reg = 0;
  imm = 0;
  mem = record { segment = 0; base = base; index = 0; scale = 1; disp = disp };
  size = size;
}

abbrev pub instruction : (size : ℕ) → (op1 op2 : Operand) → Insn
instruction size op1 op2 = record {
  size = size;
  opcode = 0;
  prefix0 = 0;
  op_count = 2;
  op1 = op1;
  op2 = op2;
  op3 = nothing;
}
