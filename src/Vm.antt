-- ===== src/Vm.antt =====
-- core/vm/Runtime: the stack machine that runs compiled BASIC. `Values` has the values and their
-- coercions, `Machine` the state and the helpers, and the other children the opcodes by groups, which
-- `Step` puts together. Floating point, whose values are a parameter `F`, is the record `Numerics`.
pub mod Values
pub mod Machine
pub mod Arithmetic
pub mod Console
pub mod Control
pub mod Arrays
pub mod FileOps
pub mod FieldOps
pub mod Step
pub mod Reasoning
pub mod Stability
pub mod SystemVars
pub mod ArrayBounds
pub mod LoopNumbers
pub mod LoopStates
pub mod LoopSteps
pub mod Loops
pub mod RecordOps
pub mod IntLines
pub mod TextOrder
