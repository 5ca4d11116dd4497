-- ===== src/Invariant.antt =====
-- The handlers of src/instr.c keep the registers 32-bit numbers and the memory bytes.
pub mod Rules
pub mod Access
pub mod Flow
pub mod Arith
pub mod Logic
pub mod Accumulator
pub mod Shift
pub mod System
pub mod SignedMul
pub mod Jumps
pub mod Sets
pub mod Table
pub mod Dispatch
pub mod Stack
pub mod Strings
