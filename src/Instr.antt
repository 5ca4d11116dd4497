-- ===== src/Instr.antt =====
-- The instruction handlers of src/instr.c, by family.
pub mod Handler
pub mod Jump
pub mod SetCond
pub mod Arith
pub mod Unary
pub mod Branch
pub mod Stack
pub mod Logic
pub mod FlagOps
pub mod Convert
pub mod Counted
pub mod Strings
pub mod MulDiv
pub mod Shift
pub mod Move
pub mod Rotate
pub mod Decimal
pub mod BitTest
pub mod Segment
pub mod SignedMul
pub mod Unimplemented
pub mod Interrupt
pub mod Port
pub mod Samples
