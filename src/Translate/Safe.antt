-- ===== src/Translate/Safe.antt =====
-- Every jump of the generated code goes to a label: what this asks of the code of one
-- instruction, and how it is kept by the emitting functions.
pub mod Rules
pub mod Emitters
pub mod Native
pub mod Calls
pub mod Opcodes
pub mod Instruction
pub mod Targets
pub mod Discovery
pub mod Numbering
pub mod Function
pub mod Handlers
pub mod Closed
