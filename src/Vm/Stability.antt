-- ===== src/Vm/Stability.antt =====
-- Every opcode keeps a property that is stable under what opcodes may do.
pub mod Arithmetic
pub mod Console
pub mod Control
pub mod Arrays
pub mod FileOps
pub mod FieldOps
pub mod Step
