-- ===== src/Runtime.antt =====
-- The runtime functions that generated code calls: src/angelsea/detail/runtime.cpp.
mod State
mod Prepare
mod CleanArgs
mod Shims
mod FastReturn
mod Frames
mod Keeps
mod Pushes
mod Return
mod Room
mod Tests
