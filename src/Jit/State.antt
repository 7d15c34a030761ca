-- ===== src/Jit/State.antt =====
-- The state of MirJit, include/angelsea/detail/mirjit.hpp, and the script functions that it works
-- on. Functions and compilation tasks are numbers: a function its address, a task the address of
-- its AsyncMirFunction. A map is a function from its keys.
use angelsea.FnConfig.{FnConfig}
use angelsea.Common.{ℕ, Bool, Option, List, ◌==◌, if◌then◌else◌}

-- LazyMirFunction; its jit_engine and script_function are its owner and key.
pub record LazyMirFunction : Type 0 where
  pub fn_config : Option FnConfig
  pub hits_before_compile : ℕ

-- AsyncMirFunction: its address, and the arguments that its JIT entries get back on linking.
pub record AsyncMirFunction : Type 0 where
  pub address : ℕ
  pub script_function : ℕ
  pub jit_entry_args : List ℕ

-- The JIT function of a script function: none, one of the two callbacks, or compiled code.
pub data JitFunction : Type 0 where
  no_function entry_function_counter entry_await_async compiled : JitFunction

-- The argument of a JIT entry: a number for compiled code, or the address of an object.
pub data EntryArg : Type 0 where
  number lazy_fn async_fn : ℕ → EntryArg

-- What the driver sees and changes of asIScriptFunction: its JIT function, and the arguments in
-- the bytecode of its JIT entries.
pub record ScriptFunction : Type 0 where
  pub jit_function : JitFunction
  pub entry_args : List EntryArg

-- `ready` is `compiled.ready` of the tasks. `handed` is what the host's compile callback has been
-- given and has not run yet.
pub record MirJit : Type 0 where
  pub lazy_functions : ℕ → Option LazyMirFunction
  pub codegen_functions : ℕ → Option AsyncMirFunction
  pub finished_functions : ℕ → Option AsyncMirFunction
  pub cancelled : ℕ → Bool
  pub ready : ℕ → Bool
  pub terminating_threads : ℕ
  pub handed : List AsyncMirFunction
  pub functions : ℕ → ScriptFunction

-- What the driver is set up with: the callback for a function's configuration, whether
-- configurations are discovered by hand, the triggers, and, of the code that is not modelled here,
-- which functions are too large, the entry arguments that the translation leaves, the address of
-- a new task, whether the host runs tasks later, whether a compiled module has its function, and
-- the first key of m_lazy_functions in the order of the container.
pub record Setup : Type 0 where
  pub request_fn_config : Option (ℕ → FnConfig)
  pub manual_discovery : Bool
  pub eager : Bool
  pub hits_before_func_compile : ℕ
  pub too_complex : ℕ → Bool
  pub translated_args : ℕ → List ℕ
  pub allocate : MirJit → ℕ
  pub has_compile_callback : Bool
  pub found : ℕ → Bool
  pub first_lazy : MirJit → Option ℕ

-- `m[k] = v`.
abbrev pub put : {V : Type 0} → ℕ → V → (ℕ → V) → ℕ → V
put k v m j = if k == j then v else m j
