-- ===== src/Translate/Elision.antt =====
-- The stack pushes that discover_function_call_pushes of src/angelsea/detail/bytecode2c.cpp hands to
-- system calls.
pub mod Maps
pub mod Handover
pub mod Pass
pub mod Flush
mod Tests
