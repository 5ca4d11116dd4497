-- ===== src/Instr/Stack/Steps.antt =====
-- One push and one pop, where the stack lies inside the allocation.
use vm_i386_32bit.Base.{ℕ, ◌+◌, ◌-◌, ◌^◌, ◌≤◌, ◌≡◌, arith, some}
use vm_i386_32bit.Machine.{Cpu, Var, set_var, u32, mem_size, esp}
use vm_i386_32bit.Machine.Memory.{
  peek, poke, store_bytes-poke, write32-store_bytes, read32-load_bytes,
}
use vm_i386_32bit.Machine.State.{IsBytes}
use vm_i386_32bit.Instr.Stack.{esp_up, push32, pop32}

-- The machine after `x` was pushed as four bytes.
abbrev pub pushed : ℕ → Cpu → Cpu
pushed x c = record c {
  var = λ w. (set_var esp (c.var esp - 4) c).var w;
  mem = poke 4 (c.var esp - 4) x c.mem;
}

pub push32-pushed :
    (x : ℕ) (c : Cpu) → 4 ≤ c.var esp → c.var esp ≤ mem_size → push32 x c ≡ some (pushed x c)
unfolding push32
push32-pushed x c lo hi =
    let e : u32 (c.var esp + 2 ^ 32 - 4) ≡ c.var esp - 4 = omega arith in
    rw (e, write32-store_bytes (c.var esp - 4) x (set_var esp (c.var esp - 4) c) (omega arith))
      (store_bytes-poke 4 (c.var esp - 4) x (set_var esp (c.var esp - 4) c) (omega arith))

-- The machine after four bytes were popped into `v`.
abbrev pub popped : Var → Cpu → Cpu
popped v c = esp_up 4 (set_var v (peek 4 (c.var esp) c.mem) c)

pub pop32-popped :
    (v : Var) (c : Cpu) → IsBytes c.mem → c.var esp + 4 ≤ mem_size → pop32 v c ≡ some (popped v c)
unfolding pop32
pop32-popped v c bytes hi = rw (read32-load_bytes (c.var esp) c bytes hi)
