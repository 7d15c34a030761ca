-- ===== src/Jit.antt =====
-- The life cycle of a function in the JIT driver: src/angelsea/detail/mirjit.cpp.
pub mod State
pub mod Lifecycle
pub mod Live
pub mod Operations
pub mod Discover
pub mod Steps
pub mod Eager
pub mod Termination
pub mod Threads
pub mod Waits
pub mod Leaks
pub mod Tests
