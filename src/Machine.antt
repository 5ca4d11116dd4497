-- ===== src/Machine.antt =====
-- The simulated machine of src/instr.c: its 32-bit registers, which are C variables, and its
-- memory, an allocation of UINT32_MAX bytes. A read or write outside the allocation is undefined
-- in C, and has the result `none`. The host is little-endian.
pub mod Memory
pub mod Registers
pub mod State
mod Tests
use vm_i386_32bit.Base.{
  ℕ, zero, suc, ◌+◌, ◌-◌, ◌*◌, ◌/◌, ◌%◌, ◌^◌, bit_and, bit_or, Bool, Option, none, some, ltb, ◌==◌,
  if◌then◌else◌, ◌>>=◌,
}
use vm_i386_32bit.Flags.{Flag, test_flag, put_flag}

-- The register variables.
pub data Var : Type 0 where
  eax ebx ecx edx esp ebp esi edi eip eflags cs ds ss es fs gs : Var

abbrev pub var_index : Var → ℕ
var_index eax = 0
var_index ebx = 1
var_index ecx = 2
var_index edx = 3
var_index esp = 4
var_index ebp = 5
var_index esi = 6
var_index edi = 7
var_index eip = 8
var_index eflags = 9
var_index cs = 10
var_index ds = 11
var_index ss = 12
var_index es = 13
var_index fs = 14
var_index gs = 15

abbrev pub same_var : Var → Var → Bool
same_var v w = var_index v == var_index w

pub record Gdtr : Type 0 where
  pub limit : ℕ
  pub base : ℕ

pub record Cpu : Type 0 where
  pub var : Var → ℕ
  pub mem : ℕ → ℕ
  pub gdtr : Gdtr
  pub idtr : Gdtr
  pub ldtr : ℕ
  pub cr0 : ℕ

abbrev pub set_var : Var → ℕ → Cpu → Cpu
set_var v x c = record c { var = λ w. if same_var v w then x else c.var w }

-- Assignment to a `uint32_t`.
abbrev pub u32 : ℕ → ℕ
u32 x = x % 2 ^ 32

abbrev pub flag : Flag → Cpu → Bool
flag f c = test_flag f (c.var eflags)

-- `cond ? set_Flag(f) : clear_Flag(f)` on the register.
abbrev pub put : Flag → Bool → Cpu → Cpu
put f b c = set_var eflags (put_flag f b (c.var eflags)) c

-- The bytes that `initialize` allocates.
abbrev pub mem_size : ℕ
mem_size = 2 ^ 32 - 1

unfoldable pub load_byte : ℕ → Cpu → Option ℕ
load_byte a c = if ltb a mem_size then some (c.mem a) else none

unfoldable pub store_byte : ℕ → ℕ → Cpu → Option Cpu
store_byte a x c =
    if ltb a mem_size
    then some (record c { mem = λ b. if a == b then x % 2 ^ 8 else c.mem b })
    else none

-- `*(uintN_t *)(mem + a)` for N = 8 * w; the address does not wrap.
unfoldable pub load_bytes : ℕ → ℕ → Cpu → Option ℕ
load_bytes zero a c = some 0
load_bytes (suc w) a c = do
  x ← load_byte a c
  rest ← load_bytes w (a + 1) c
  some (x + 2 ^ 8 * rest)

unfoldable pub store_bytes : ℕ → ℕ → ℕ → Cpu → Option Cpu
store_bytes zero a x c = some c
store_bytes (suc w) a x c = do c ← store_byte a x c; store_bytes w (a + 1) (x / 2 ^ 8) c

-- What a C pointer of an operand points at: a register variable, or a byte of `mem`.
pub data Place : Type 0 where
  in_var : Var → Place
  in_mem : ℕ → Place

-- A read and a write of `w` bytes through a pointer. In a register they are its low bytes.
unfoldable pub load : ℕ → Place → Cpu → Option ℕ
load w (in_var v) c = some (c.var v % 2 ^ (8 * w))
load w (in_mem a) c = load_bytes w a c

unfoldable pub store : ℕ → Place → ℕ → Cpu → Option Cpu
store w (in_var v) x c = some (set_var v (c.var v - c.var v % 2 ^ (8 * w) + x % 2 ^ (8 * w)) c)
store w (in_mem a) x c = store_bytes w a x c

-- The accessors of the stack: the address of each byte wraps at 32 bits.
unfoldable pub write16 : ℕ → ℕ → Cpu → Option Cpu
write16 addr value c = do
  c ← store_byte addr (bit_and value 0xFF) c
  store_byte (u32 (addr + 1)) (bit_and (value / 2 ^ 8) 0xFF) c

unfoldable pub write32 : ℕ → ℕ → Cpu → Option Cpu
write32 addr value c = do
  c ← store_byte addr (bit_and value 0xFF) c
  c ← store_byte (u32 (addr + 1)) (bit_and (value / 2 ^ 8) 0xFF) c
  c ← store_byte (u32 (addr + 2)) (bit_and (value / 2 ^ 16) 0xFF) c
  store_byte (u32 (addr + 3)) (bit_and (value / 2 ^ 24) 0xFF) c

unfoldable pub read16 : ℕ → Cpu → Option ℕ
read16 addr c = do
  b0 ← load_byte addr c
  b1 ← load_byte (u32 (addr + 1)) c
  some (bit_or b0 (b1 * 2 ^ 8))

unfoldable pub read32 : ℕ → Cpu → Option ℕ
read32 addr c = do
  b0 ← load_byte addr c
  b1 ← load_byte (u32 (addr + 1)) c
  b2 ← load_byte (u32 (addr + 2)) c
  b3 ← load_byte (u32 (addr + 3)) c
  some (bit_or (bit_or (bit_or b0 (b1 * 2 ^ 8)) (b2 * 2 ^ 16)) (b3 * 2 ^ 24))
