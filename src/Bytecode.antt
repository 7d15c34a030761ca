-- ===== src/Bytecode.antt =====
-- The view of the bytecode that the translator works on: include/angelsea/detail/bytecodeinstruction.hpp
-- and include/angelsea/detail/bytecodetools.hpp.
pub mod Opcode
pub mod VarType
pub mod Ins
