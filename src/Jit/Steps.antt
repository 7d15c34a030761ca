-- ===== src/Jit/Steps.antt =====
-- What happens to MirJit: the engine registers and cleans up functions, runs JIT entries, and the
-- host runs the tasks that it was handed and asks for the functions' configurations
-- (src/angelsea/detail/mirjit.cpp).
use angelsea.Common.{◌∷◌, ◌++◌, List, ℕ, true, ◌≡◌, some}
use angelsea.Jit.State.{LazyMirFunction, AsyncMirFunction, JitFunction, MirJit, Setup}
use angelsea.Jit.Lifecycle.{
  codegen_async_function, register_function, entry_counter, entry_await, discover_fn_config,
}
use angelsea.Jit.Live.{Valid, entry_await-Valid}
use angelsea.Jit.Operations.{
  clean_function, clean_function-Valid, codegen_async_function-Valid, entry_counter-Valid,
  register_function-Valid,
}
use angelsea.Jit.Discover.{discover_fn_config-Valid}

-- A step: the engine registers a function that has no JIT function, or cleans one up; it runs a
-- JIT entry, with the object that the entry's argument points to; the host runs a task that it
-- was handed, in any order; or it has the configurations discovered.
pub data Step (s : Setup) : MirJit → MirJit → Type 0 where
  registers :
      (f : ℕ) (j : MirJit)
      → (j.functions f).jit_function ≡ JitFunction.no_function
      → Step s j (register_function s f j)
  cleans : (f : ℕ) (j : MirJit) → Step s j (clean_function f j)
  counts :
      (f : ℕ) (x : LazyMirFunction) (j : MirJit)
      → (j.functions f).jit_function ≡ JitFunction.entry_function_counter
      → j.lazy_functions f ≡ some x
      → Step s j (entry_counter s f x j).1
  awaits : (address : ℕ) (j : MirJit) → Step s j (entry_await address j).1
  runs_task :
      (a : AsyncMirFunction) (before after : List AsyncMirFunction) (j : MirJit)
      → j.handed ≡ before ++ a ∷ after
      → Step s j (codegen_async_function s a (record j { handed = before ++ after }))
  discovers : (fuel : ℕ) (j : MirJit) → Step s j (discover_fn_config s fuel j)

pub data Steps (s : Setup) : MirJit → MirJit → Type 0 where
  stop : (j : MirJit) → Steps s j j
  then_step : (i j k : MirJit) → Steps s i j → Step s j k → Steps s i k

Step-Valid :
    (s : Setup) → ((f : ℕ) → s.found f ≡ true) → (i j : MirJit) → Step s i j → Valid i → Valid j
Step-Valid s found _ _ (registers f j e) h = register_function-Valid s found f j e h
Step-Valid s found _ _ (cleans f j) h = clean_function-Valid f j h
Step-Valid s found _ _ (counts f x j e q) h = entry_counter-Valid s found f x j e h
Step-Valid s found _ _ (awaits address j) h = entry_await-Valid address j h
Step-Valid s found _ _ (runs_task a before after j e) h =
    codegen_async_function-Valid s found a (record j { handed = before ++ after }) h
Step-Valid s found _ _ (discovers fuel j) h = discover_fn_config-Valid s found fuel j h

-- Where every compiled module has its function: a run of steps from a valid state ends in a
-- valid state. There every function is in no map, or in exactly one, and each of its JIT entries
-- then points to its object in that map, the one that the callback of the entry reads.
pub Steps-Valid :
    (s : Setup) → ((f : ℕ) → s.found f ≡ true) → (i j : MirJit) → Valid i → Steps s i j → Valid j
Steps-Valid s found _ _ h (stop j) = h
Steps-Valid s found i _ h (then_step _ j k run step) =
    Step-Valid s found j k step (Steps-Valid s found i j h run)
