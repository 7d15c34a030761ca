-- ===== src/Translate.antt =====
-- The translation of bytecode to C (class BytecodeToC of src/angelsea/detail/bytecode2c.cpp).
pub mod CCode
pub mod Engine
pub mod State
pub mod Emit
pub mod Arithmetic
pub mod Calls
pub mod Native
pub mod SystemCalls
pub mod Nesting
pub mod Memory
pub mod Objects
pub mod Control
pub mod Switch
pub mod Instruction
pub mod Discover
pub mod SwitchTable
pub mod Elision
pub mod Entries
pub mod Function
pub mod Safe
pub mod Dispatch
pub mod Numbers
