-- ===== src/Invariant/Access.antt =====
-- The accessors of registers and memory: what they read are 32-bit numbers, and what they write
-- leaves a well-formed machine.
use vm_i386_32bit.Base.{
  ℕ, zero, suc, ◌+◌, ◌-◌, ◌*◌, ◌%◌, ◌^◌, ◌<◌, ◌≤◌, Bool, true, false, arith, if◌then◌else◌,
  bit_or-lt,
}
use vm_i386_32bit.Flags.{Flag, put_flag}
use vm_i386_32bit.Flags.Laws.{put_flag-lt}
use vm_i386_32bit.Machine.{
  Cpu, Place, in_var, in_mem, u32, put, load, load_byte, load_bytes, store, read16, read32, write16,
  write32, eflags,
}
use vm_i386_32bit.Machine.Registers.{width_of, reg_val}
use vm_i386_32bit.Machine.State.{IsCpu}
use vm_i386_32bit.Operand.{
  MemOp, Operand, size_width, eff_addr, source_value, source_value32, target_value,
}
use vm_i386_32bit.Instr.Arith.{cmp_width}
use vm_i386_32bit.Invariant.Rules.{
  Gives, undefined, gives, Gives-bind, Gives-skip, Gives-write, Gives-if, Gives-kind, Gives-weaken,
  set_var-IsCpu, if-IsCpu, advance-IsCpu, store_byte-IsCpu, store_bytes-IsCpu,
}

-- A 32-bit number.
abbrev pub IsWord : ℕ → Type 0
IsWord x = x < 2 ^ 32

pub if-IsWord : (b : Bool) (x y : ℕ) → IsWord x → IsWord y → IsWord (if b then x else y)
if-IsWord true x y p q = p
if-IsWord false x y p q = q

pub put-IsCpu : (f : Flag) (b : Bool) (c : Cpu) → IsCpu c → IsCpu (put f b c)
put-IsCpu f b c ok =
    set_var-IsCpu eflags (put_flag f b (c.var eflags)) c (put_flag-lt f b _ (ok.words eflags)) ok

pub cmp_width-le : (s : ℕ) → cmp_width s ≤ 4
unfolding cmp_width
cmp_width-le s = ground arith

pub size_width-le : (s : ℕ) → size_width s ≤ 4
unfolding size_width
size_width-le s = ground arith

pub width_of-le : (s : ℕ) → width_of s ≤ 4
unfolding width_of
width_of-le s = ground arith

pub four-le : 4 ≤ 4
four-le = omega arith

pub one-le : 1 ≤ 4
one-le = omega arith

pub two-le : 2 ≤ 4
two-le = omega arith

merged-lt : (w x y : ℕ) → w ≤ 4 → x < 2 ^ 32 → x - x % 2 ^ (8 * w) + y % 2 ^ (8 * w) < 2 ^ 32
merged-lt zero x y h lt = omega arith
merged-lt (suc zero) x y h lt = omega arith
merged-lt (suc (suc zero)) x y h lt = omega arith
merged-lt (suc (suc (suc zero))) x y h lt = omega arith
merged-lt (suc (suc (suc (suc zero)))) x y h lt = omega arith
merged-lt (suc (suc (suc (suc (suc w))))) x y h lt = absurd (omega arith)

pub store-IsCpu :
    (w : ℕ) (p : Place) (x : ℕ) (c : Cpu) → w ≤ 4 → IsCpu c → Gives IsCpu (store w p x c)
unfolding store
store-IsCpu w (in_var v) x c h ok =
    gives (set_var-IsCpu v _ c (merged-lt w (c.var v) x h (ok.words v)) ok)
store-IsCpu w (in_mem a) x c h ok = store_bytes-IsCpu w a x c ok

load_byte-lt : (a : ℕ) (c : Cpu) → IsCpu c → Gives (λ x. x < 2 ^ 8) (load_byte a c)
unfolding load_byte
load_byte-lt a c ok = Gives-if _ (gives (ok.bytes a)) undefined

-- 256 to the power of `w`.
abbrev span : ℕ → ℕ
span zero = 1
span (suc w) = 2 ^ 8 * span w

span-le : (w : ℕ) → w ≤ 4 → span w ≤ 2 ^ 32
span-le zero h = omega arith
span-le (suc zero) h = omega arith
span-le (suc (suc zero)) h = omega arith
span-le (suc (suc (suc zero))) h = omega arith
span-le (suc (suc (suc (suc zero)))) h = omega arith
span-le (suc (suc (suc (suc (suc w))))) h = absurd (omega arith)

load_bytes-span : (w a : ℕ) (c : Cpu) → IsCpu c → Gives (λ x. x < span w) (load_bytes w a c)
unfolding load_bytes
load_bytes-span zero a c ok = gives (omega arith)
load_bytes-span (suc w) a c ok =
    Gives-bind (load_byte-lt a c ok)
      λ x p. Gives-bind (load_bytes-span w (a + 1) c ok) λ rest q. gives (omega arith)

pub load_bytes-IsWord : (w a : ℕ) (c : Cpu) → w ≤ 4 → IsCpu c → Gives IsWord (load_bytes w a c)
load_bytes-IsWord w a c h ok =
    Gives-weaken (λ x p. omega (arith, span-le w h)) (load_bytes-span w a c ok)

pub load-IsWord : (w : ℕ) (p : Place) (c : Cpu) → w ≤ 4 → IsCpu c → Gives IsWord (load w p c)
unfolding load
load-IsWord w (in_var v) c h ok = gives (ground (arith, ok.words v))
load-IsWord w (in_mem a) c h ok = load_bytes-IsWord w a c h ok

pub write32-IsCpu : (a x : ℕ) (c : Cpu) → IsCpu c → Gives IsCpu (write32 a x c)
unfolding write32
write32-IsCpu a x c ok = Gives-bind (store_byte-IsCpu _ _ c ok) λ c ok.
    Gives-bind (store_byte-IsCpu _ _ c ok)
      λ c ok. Gives-bind (store_byte-IsCpu _ _ c ok) λ c ok. store_byte-IsCpu _ _ c ok

pub write16-IsCpu : (a x : ℕ) (c : Cpu) → IsCpu c → Gives IsCpu (write16 a x c)
unfolding write16
write16-IsCpu a x c ok = Gives-bind (store_byte-IsCpu _ _ c ok) λ c ok. store_byte-IsCpu _ _ c ok

pub u32-IsWord : (x : ℕ) → IsWord (u32 x)
u32-IsWord x = omega arith

pub read16-IsWord : (a : ℕ) (c : Cpu) → IsCpu c → Gives IsWord (read16 a c)
unfolding read16
read16-IsWord a c ok = Gives-bind (load_byte-lt a c ok) λ b0 p0.
    Gives-bind (load_byte-lt _ c ok)
      λ b1 p1. gives (bit_or-lt 32 b0 (b1 * 2 ^ 8) (omega arith) (omega arith))

pub read32-IsWord : (a : ℕ) (c : Cpu) → IsCpu c → Gives IsWord (read32 a c)
unfolding read32
read32-IsWord a c ok = Gives-bind (load_byte-lt a c ok) λ b0 p0.
    Gives-bind (load_byte-lt _ c ok) λ b1 p1. Gives-bind (load_byte-lt _ c ok) λ b2 p2.
      Gives-bind (load_byte-lt _ c ok) λ b3 p3. gives (
        bit_or-lt 32 _ (b3 * 2 ^ 24)
          (bit_or-lt 32 _ (b2 * 2 ^ 16) (bit_or-lt 32 b0 (b1 * 2 ^ 8) (omega arith) (omega arith))
            (omega arith))
          (omega arith))

top-IsWord : IsWord (2 ^ 32 - 1)
top-IsWord = omega arith

pub reg_val-IsWord : (r : ℕ) (c : Cpu) → IsCpu c → Gives IsWord (reg_val r c)
unfolding reg_val
reg_val-IsWord r c ok =
    search (undefined, gives, Gives-if, Gives-skip, load-IsWord, width_of-le, top-IsWord)

pub eff_addr-IsWord : (m : MemOp) (c : Cpu) → Gives IsWord (eff_addr m c)
unfolding eff_addr
eff_addr-IsWord m c = search (gives, Gives-skip, u32-IsWord)

-- The operands, on each of their types.
ruleset source_rules = (gives, Gives-skip, load-IsWord, u32-IsWord, size_width-le, four-le)

pub target_value-IsWord : (op : Operand) (c : Cpu) → IsCpu c → Gives IsWord (target_value op c)
unfolding target_value
target_value-IsWord op c ok =
    Gives-kind op.kind (search source_rules) (reg_val-IsWord op.reg c ok) (search source_rules)
      (search source_rules)

pub source_value-IsWord : (op : Operand) (c : Cpu) → IsCpu c → Gives IsWord (source_value op c)
unfolding source_value
source_value-IsWord op c ok =
    Gives-kind op.kind undefined (reg_val-IsWord op.reg c ok) (search source_rules)
      (search source_rules)

pub source_value32-IsWord : (op : Operand) (c : Cpu) → IsCpu c → Gives IsWord (source_value32 op c)
unfolding source_value32
source_value32-IsWord op c ok =
    Gives-kind op.kind undefined (reg_val-IsWord op.reg c ok) (search source_rules)
      (search source_rules)

pub two_or_four-le : (b : Bool) → (if b then 2 else 4) ≤ 4
two_or_four-le b = ground arith

-- The steps of a handler: reads of which nothing is needed, writes, tests, and the result.
pub ruleset keeps_rules = (
  undefined, gives, Gives-if, Gives-write, Gives-skip, if-IsCpu, set_var-IsCpu, advance-IsCpu,
  put-IsCpu, store-IsCpu, store_bytes-IsCpu, write16-IsCpu, write32-IsCpu, u32-IsWord, cmp_width-le,
  size_width-le, width_of-le, one-le, two-le, four-le, two_or_four-le,
)
