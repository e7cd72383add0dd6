-- ===== src/Bytecode.antt =====
-- core/vm/BytecodeText, Parser and the names of core/vm/InstructionPrint: programs as text. `Names`
-- and `Table` have the opcodes, `Printing` writes a program and `Lines` and `Parser` read it;
-- `Listing` shows an instruction to people.
pub mod Names
pub mod Table
pub mod Printing
pub mod Lines
pub mod Parser
pub mod Quoting
pub mod Operands
pub mod RoundTrip
pub mod WholeLines
pub mod OperandTexts
pub mod Listing
