-- ===== src/Lib.antt =====
-- A simulator of the i386 in 32-bit mode: its instructions, dispatcher, start-up and main loop.
--
-- The program. The loader (src/loader.c) lays an ELF file out in an allocation that stands for the
-- machine's memory; the main loop (src/proc.c) lets Capstone disassemble the bytes at EIP and hands
-- each decoded instruction to dispatcher (src/instr.c), which looks its mnemonic up and calls the
-- handler, one C function per mnemonic. A handler moves EIP behind the instruction, finds its
-- operands (through the tables regs and regs_size, and through eff_addr), changes registers and
-- memory, and writes the flags with the functions of src/flags.c. INT 0x80 leaves for the host's
-- system calls (src/syscall.c). This development models the handlers, which are the program's core,
-- and what stands around them up to the host: the start, the dispatcher and the loops.
--
-- Which file models what.
--   Base           tests, optional values, digits of numbers, signed integers: no code of its own.
--   Flags          src/flags.c and lib/flags.h, function by function: set_Flag is set_flag, and so
--                  on. Flags.Laws treats EFLAGS as independent bits, Flags.Meaning says what the
--                  tests say of sums and differences.
--   Machine        the register variables and the memory of src/instr.c, and its accessors read16,
--                  read32, write16, write32 (Machine.Memory has their laws); regs, regs_size and
--                  reg_val are in Machine.Registers.
--   Operand        the decoded instruction, eff_addr, get_gdt_base, get_gdt_limit, and the ways in
--                  which the handlers find an operand.
--   Instr          the handlers, under their C names, by family:
--                    Jump      JMP and Jcc            SetCond   SETcc
--                    Arith     ADD, ADC, SUB, SBB, CMP
--                    Unary     INC, DEC, NEG          Logic     AND, OR, XOR, NOT, TEST
--                    Move      MOV, MOVSX, MOVZX, LEA, XCHG, XLAT
--                    FlagOps   CLC to STI, LAHF, SAHF, CLTS, NOP
--                    Convert   CBW, CWDE, CWD, CDQ    MulDiv    MUL, DIV
--                    Stack     PUSH, POP, CALL, RET, LEAVE, ENTER, PUSHA, POPA, PUSHF, POPF
--                    Shift     SAL, SHL, SHR, SAR     Counted   LOOP and its conditional forms
--                    Rotate    ROL, ROR, RCL, RCR, SHRD
--                    BitTest   BT, BTS, BTR, BTC, BSF, BSR
--                    Decimal   AAA, AAS, AAM, AAD, DAA, DAS
--                    SignedMul IMUL, IDIV
--                    Segment   LDS to LSS, LGDT to SMSW, LAR, LSL, VERR, VERW, ARPL, BOUND
--                    Interrupt INT, INTO with src/interrupts.c
--                    Port      IN, OUT, INS, OUTS
--                    Strings   MOVS, STOS, LODS, CMPS, SCAS, REP
--                    Unimplemented, the handlers that the source leaves empty
--                  Instr.Branch joins CMP with the jumps behind it.
--   Startup        initialize and init_gdt, and what get_gdt_base and get_gdt_limit read behind them.
--   Dispatcher     the tables inss and instructions and the search of src/instr.c's dispatcher.
--   Invariant      one lemma per handler: it keeps machines well-formed. Invariant.Rules has a rule
--                  for each way in which runs are put together, Invariant.Dispatch joins the lemmas.
--   Loader         load_stack and read_auxv of src/loader.c: Loader.Strings has the strings on the
--                  stack, Loader.Frame and Loader.Auxv the words, Loader.Whole joins them.
--   Process        the rounds of the loops of src/proc.c and the list of breakpoints of its
--                  debugger; Process.Reached has the machines that a loop reaches.
--   Examples and the modules called Samples and Tests hold sample machines and instructions.
--
-- How state and operations correspond. The global variables are a record, Cpu: a function from the
-- names of the register variables to numbers, a function from host offsets to bytes, GDTR, IDTR,
-- LDTR and CR0. A handler is a function from an instruction and a Cpu to `some` of the new Cpu and
-- the int that the C function returns, or `none` where C leaves the behaviour undefined: a NULL
-- entry of regs or an index outside it, a variable that no branch sets, and an access outside the
-- allocation of UINT32_MAX bytes. The order of reads and writes within a handler is the source's.
-- Assignments to uint32_t, uint16_t and uint8_t are remainders, written out. A `void *` that may
-- point at a register or into memory is a Place. An access through a cast pointer does not wrap at
-- 32 bits; the accessors read32 and write32 wrap the address of each byte, and both are modelled
-- so. Signed overflow in eff_addr and in MUL is taken to wrap, and the host is little-endian.
--
-- Capstone is a parameter: every handler takes the decoded instruction, and nothing is assumed of
-- it but what a theorem names. Its union of register, immediate and address is three fields, so
-- that no theorem depends on how they overlap; immediates and displacements are in two's
-- complement. The host's /dev/port and the table of system calls of src/trad_syscall.c are
-- parameters, too: the record Host; the entries of /proc/self/auxv, the results of random() and the
-- array element that load_stack never sets are arguments of it. What the invariant needs of a
-- system call, that it leaves registers of 32 bits and bytes, is a named hypothesis.
--
-- Bounds. Most loops of the source that are modelled have a fixed count (eight bits in parity, the
-- level in ENTER, which is a byte, the entries of the descriptor table, the names in the table of
-- mnemonics, the slots in use) and are structural recursion on it. The scans of BSF and BSR are on
-- fuel: one unit of it is enough, since no run enters their loop (Instr.BitTest.Scans). The rounds
-- of a REP instruction, which the main loop runs one by one, are a relation that counts them, and
-- the rounds of the main loop itself, which need not end, are the relation Reached.
--
-- Not modelled: src/syscall.c, src/trad_syscall.c and src/typesi386.c, which hand a system call to
-- the host's kernel; in src/loader.c read_elf_file and read_raw_file, which read files; in
-- src/proc.c the reads of commands and the windows, and src/interface.c, which are input and output
-- on the terminal; and Capstone itself.
mod Base
mod Examples
pub mod Flags
pub mod Machine
pub mod Operand
pub mod Instr
pub mod Startup
pub mod Dispatcher
pub mod Invariant
pub mod Loader
pub mod Process
