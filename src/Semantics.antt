-- ===== src/Semantics.antt =====
-- What the generated C does: an interpreter for the part of the syntax tree that the
-- arithmetic, comparison and jump instructions use, and what these instructions' code computes.
pub mod Machine
pub mod Locals
pub mod Fused
pub mod Compared
pub mod Unordered
pub mod Division
pub mod Tests
