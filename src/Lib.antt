-- ===== src/Lib.antt =====
-- Verification library of angelsea, a JIT compiler for AngelScript.
--
-- Angelsea registers itself with an AngelScript engine, translates the bytecode of a script
-- function to C and compiles the C in memory with MIR. The core is the translator BytecodeToC
-- (src/angelsea/detail/bytecode2c.cpp, include/angelsea/detail/bytecode2c.hpp), which runs a few
-- passes over the bytecode (switches, JIT entries, branch targets, stack pushes, peephole), then
-- emits one block of C per instruction, and at the end the error handlers that the blocks jump to.
--
-- Files:
--   Common: native numbers, Boolean tests, lists, association lists, integers.
--   Bytecode: include/angelsea/detail/bytecodeinstruction.hpp and bytecodetools.hpp. An
--     instruction is a record of its arguments; the structs of bcins are functions on opcodes.
--   Translate/CCode: the emitted C as a syntax tree. The statements that the theorems speak of
--     (declarations, assignments, jumps, tests) have constructors, the rest is text.
--   Translate/Engine: the engine, which is no code of this repository, as parameters, and the
--     fields of JitConfig.
--   Translate/State: FnState and ModuleState as explicit state, with the emitting operations.
--   Translate/Emit, Arithmetic, Calls, SystemCalls, Memory, Objects, Control: the emit_ functions
--     and the cases of translate_instruction that are longer than a line; Translate/Switch is its switch
--     over the opcodes, Translate/Instruction the rest of it.
--   Translate/Native: emit_direct_system_call_native: Types its C types, Gather its arguments, Hidden
--     those of the ABI, Emit and Call the code; Returns, Moves, Layout, Popped, InOrder, Before,
--     Arguments, Cleaning, Silent and Refusal are proofs, as is Translate/Nesting. Its lookups that
--     throw on a missing key go on without code in the model. The calls that clean arguments are
--     nested two deep (emit_system_call in Translate/SystemCalls), which is enough where a release or
--     destruct behaviour has no arguments to clean.
--   Translate/Discover: the discover_ passes; Translate/SwitchTable: the tables of switches;
--   Translate/Elision: the elided pushes and the calls that take them: Maps, Handover and Pass on
--     discover_function_call_pushes, Flush on the code;
--   Translate/Entries: configure_jit_entries; Translate/Numbers: the entries' arguments;
--   Translate/Function: emit_entry_dispatch, emit_error_handlers and translate_function.
--   Translate/Safe: the proof that every jump has its label; Translate/Dispatch: the entries.
--   Semantics: an interpreter of the emitted statements, and what the emitted arithmetic and
--     comparisons do, alone and with the jump or test behind them.
--   Jit: the life cycle of a function in MirJit (src/angelsea/detail/mirjit.cpp): State, the
--     operations in Lifecycle, one step each, the invariant in Live, Operations and Discover,
--     runs in Steps; Termination and Eager on the loop of discover_fn_config, whose fuel is at
--     least the number of functions that may wait; Threads, Waits and Leaks on the destructor. The
--     hypothesis on compiled modules says that the C compiler keeps the function it was given.
--   Runtime: the runtime functions of src/angelsea/detail/runtime.cpp over the engine's context: State
--     has the context and what is taken of the engine, Prepare asea_prepare_script_stack and its
--     variants, FastReturn the C that is emitted for asBC_RET, CleanArgs asea_clean_args, Shims the
--     calls that are handed on. Frames reads the call stack as a list of frames; Keeps, Pushes, Return
--     and Room are proofs. Pointers are counted in dwords and have two of them.
--   Source: finalize_context and the reading of its blocks by the C compiler (c2mir_getc_callback of
--     mirjit.cpp), whose loop has one round of fuel more than there are blocks.
--   StringUtil: include/angelsea/detail/stringutil.hpp, with a reader of C string literals.
--   FnConfig: src/angelsea/fnconfig.cpp and include/angelsea/fnconfig.hpp.
--   Tests and the modules Tests of Translate/Native, Translate/Elision, Semantics, Jit, Runtime,
--     Source, StringUtil and FnConfig:
--     small cases on which the theorems are applied.
--
-- The translator's functions are structural recursions on the bytecode, so no fuel is needed. Offsets are
-- natural numbers; a jump's target is an integer, and its conversion to std::size_t wraps at
-- 2^64. The hypothesis WellFormed is what the engine's compiler guarantees of its bytecode: a
-- jump goes to an instruction, and a JitEntry comes first. The hypothesis Distinct on offsets holds of a
-- view of the bytecode, where each instruction has a size.
--
-- Not modelled: c.human_readable and debug.trace_functions (comments and traces in the C),
-- the constant text around a function's blocks,
-- the runtime's messages for debugging and its allocation, which only call the engine, the
-- disassembler, logging and jit.cpp. The C compiler MIR and the engine are not code of this
-- repository.
pub mod Common
pub mod Bytecode
pub mod Translate
pub mod Semantics
pub mod Runtime
pub mod StringUtil
pub mod FnConfig
pub mod Jit
pub mod Source
pub mod Tests
