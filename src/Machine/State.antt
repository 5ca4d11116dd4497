-- ===== src/Machine/State.antt =====
-- The machines that the variables of src/instr.c can hold: what every `uint32_t` and every byte is.
use vm_i386_32bit.Base.{ℕ, zero, suc, ◌+◌, ◌/◌, ◌%◌, ◌^◌, ◌<◌, arith, ◌==◌, if◌then◌else◌}
use vm_i386_32bit.Machine.{Cpu, Var}
use vm_i386_32bit.Machine.Memory.{poke}

-- The bytes of memory are bytes.
abbrev pub IsBytes : (ℕ → ℕ) → Type 0
IsBytes m = (a : ℕ) → m a < 2 ^ 8

-- The registers hold 32 bits, and the memory holds bytes.
pub record IsCpu (c : Cpu) : Type 0 where
  pub words : (v : Var) → c.var v < 2 ^ 32
  pub bytes : IsBytes c.mem

-- A write leaves bytes.
pub poke-IsBytes : (w a x : ℕ) (m : ℕ → ℕ) → IsBytes m → IsBytes (poke w a x m)
unfolding poke
poke-IsBytes zero a x m h = h
poke-IsBytes (suc w) a x m h =
    poke-IsBytes w (a + 1) (x / 2 ^ 8) (λ b. if a == b then x % 2 ^ 8 else m b)
      λ b. ground (arith, h b)
