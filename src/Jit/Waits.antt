-- ===== src/Jit/Waits.antt =====
-- The destructor of MirJit, src/angelsea/detail/mirjit.cpp, waits until m_terminating_threads is 0.
use angelsea.Common.{ℕ, ◌+◌, true, ◌≡◌, List, ◌∷◌, ◌++◌, length, length-append, arith}
use angelsea.Jit.State.{AsyncMirFunction, MirJit, Setup}
use angelsea.Jit.Lifecycle.{
  start_task, hand_task, unregister_function, codegen_async_function, entry_counter,
  discover_fn_config,
}
use angelsea.Jit.Operations.{clean_function}
use angelsea.Jit.Steps.{
  discovers, runs_task, awaits, counts, then_step, cleans, stop, registers, Step, Steps,
}
use angelsea.Jit.Threads.{
  Counted, Holds, run_tasks, hand_task-Counted, codegen_async_function-counts,
  run_tasks-terminating, register_function-Holds, count_hit-Holds, entry_await-Holds,
  discover_by-Holds,
}

pub length-middle :
    (before after : List AsyncMirFunction) (a : AsyncMirFunction)
    → length (before ++ a ∷ after) ≡ 1 + length (before ++ after)
length-middle before after a =
    omega (arith, length-append before (a ∷ after), length-append before after)

-- A property of the counter and the host's tasks that is kept where a task starts and where the
-- host runs one is kept by every step.
module _ (s : Setup) (Q : ℕ → List AsyncMirFunction → Type 0)
    (starts : (k : ℕ) (a : AsyncMirFunction) (j : MirJit)
      → Holds Q j
      → Holds Q (hand_task s a (start_task k a j)))
    (runs : (a : AsyncMirFunction) (before after : List AsyncMirFunction) (j : MirJit)
      → j.handed ≡ before ++ a ∷ after
      → Holds Q j
      → Holds Q (codegen_async_function s a (record j { handed = before ++ after }))) where
  Step-Holds : (i j : MirJit) → Step s i j → Holds Q i → Holds Q j
  unfolding clean_function unregister_function entry_counter discover_fn_config
  Step-Holds _ _ (registers f j e) h = register_function-Holds s Q starts f j h
  Step-Holds _ _ (cleans f j) h = h
  Step-Holds _ _ (counts f x j e q) h = count_hit-Holds s Q starts f x x.hits_before_compile j h
  Step-Holds _ _ (awaits address j) h = entry_await-Holds s Q starts address j h
  Step-Holds _ _ (runs_task a before after j e) h = runs a before after j e h
  Step-Holds _ _ (discovers fuel j) h = discover_by-Holds s Q starts fuel s.request_fn_config j h

  pub Steps-Holds : (i j : MirJit) → Holds Q i → Steps s i j → Holds Q j
  Steps-Holds _ _ h (stop j) = h
  Steps-Holds i _ h (then_step _ j k run step) = Step-Holds j k step (Steps-Holds i j h run)

module _ (s : Setup) (found : (f : ℕ) → s.found f ≡ true) where
  runs-Counted :
      (a : AsyncMirFunction) (before after : List AsyncMirFunction) (j : MirJit)
      → j.handed ≡ before ++ a ∷ after
      → Counted j
      → Counted (codegen_async_function s a (record j { handed = before ++ after }))
  runs-Counted a before after j e h =
      let i = record j { handed = before ++ after } in
      let (p, q) = codegen_async_function-counts s a i (found a.script_function) in
      let n : j.terminating_threads ≡ length (before ++ a ∷ after) = rw (← e) h in
      rw (p, q) (omega (arith, n, length-middle before after a))

  -- Where every compiled module has its function: in every state that steps lead to from one whose
  -- counter of terminating threads is the number of the host's tasks, it is that number again, and
  -- it is 0 once the host has run its tasks, so that the destructor does not wait any more.
  pub Steps-terminating :
      (i j : MirJit)
      → Counted i
      → Steps s i j
      → (j.terminating_threads ≡ length j.handed)
        × ((run_tasks s j.handed j).terminating_threads ≡ 0)
  Steps-terminating i j h run =
      let c =
        Steps-Holds s (λ n l. n ≡ length l) (hand_task-Counted s found) runs-Counted i j h run in
      (c, run_tasks-terminating s found j.handed j c)
