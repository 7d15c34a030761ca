-- ===== src/Translate/Native.antt =====
-- emit_direct_system_call_native of src/angelsea/detail/bytecode2c.cpp: a direct call of a C++
-- function by its native convention.
pub mod Types
pub mod Gather
pub mod Hidden
pub mod Emit
pub mod Call
pub mod Returns
pub mod Moves
pub mod Layout
pub mod Before
pub mod Popped
pub mod InOrder
pub mod Arguments
pub mod Cleaning
mod Tests
pub mod Silent
pub mod Refusal
