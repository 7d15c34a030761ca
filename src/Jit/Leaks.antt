-- ===== src/Jit/Leaks.antt =====
-- A task of src/angelsea/detail/mirjit.cpp that does not find its function in the compiled module, and
-- the destructor of MirJit, which waits until m_terminating_threads is 0.
use angelsea.Common.{
  ℕ, ◌+◌, ◌≤◌, false, ◌≡◌, ◌≢◌, List, [], ◌∷◌, ◌++◌, length, length-append, arith, Bool-cases, inl,
  inr,
}
use angelsea.Jit.State.{AsyncMirFunction, MirJit, Setup}
use angelsea.Jit.Lifecycle.{
  codegen_async_function, start_task, hand_task, setup_jit_callback, set_jit_function,
}
use angelsea.Jit.Operations.{if_keeps}
use angelsea.Jit.Steps.{Steps}
use angelsea.Jit.Threads.{
  Counted, Holds, codegen_async_function-leaks, codegen_async_function-counts,
}
use angelsea.Jit.Waits.{length-middle, Steps-Holds}

-- The counter is above the number of the host's tasks by m at least.
abbrev Above : ℕ → ℕ → List AsyncMirFunction → Type 0
Above m n l = m + length l ≤ n

module _ (s : Setup) where
  -- A task takes at most one from the counter.
  codegen-lowers :
      (a : AsyncMirFunction) (j : MirJit)
      → (j.terminating_threads ≤ (codegen_async_function s a j).terminating_threads + 1)
        × ((codegen_async_function s a j).handed ≡ j.handed)
  codegen-lowers a j = elim (Bool-cases (s.found a.script_function)) [
    | inl e ↦ let (p, q) = codegen_async_function-counts s a j e in (omega (arith, p), q)
    | inr e ↦ let (p, q) = codegen_async_function-leaks s a j e in (omega (arith, p), q)
  ]

  starts-Above :
      (m k : ℕ) (a : AsyncMirFunction) (j : MirJit)
      → Holds (Above m) j
      → Holds (Above m) (hand_task s a (start_task k a j))
  unfolding start_task setup_jit_callback set_jit_function
  starts-Above m k a j h =
      let (p, q) = codegen-lowers a (start_task k a j) in
      if_keeps (Holds (Above m)) s.has_compile_callback _ _
        (omega (arith, h, length-append j.handed (a ∷ []))) (rw q (omega (arith, h, p)))

  runs-Above :
      (m : ℕ) (a : AsyncMirFunction) (before after : List AsyncMirFunction) (j : MirJit)
      → j.handed ≡ before ++ a ∷ after
      → Holds (Above m) j
      → Holds (Above m) (codegen_async_function s a (record j { handed = before ++ after }))
  runs-Above m a before after j e h =
      let (p, q) = codegen-lowers a (record j { handed = before ++ after }) in
      let n : m + length (before ++ a ∷ after) ≤ j.terminating_threads = rw (← e) h in
      rw q (omega (arith, n, p, length-middle before after a))

  missing-Above :
      (a : AsyncMirFunction) (before after : List AsyncMirFunction) (j : MirJit)
      → j.handed ≡ before ++ a ∷ after
      → s.found a.script_function ≡ false
      → Holds (Above 0) j
      → Holds (Above 1) (codegen_async_function s a (record j { handed = before ++ after }))
  missing-Above a before after j e missing h =
      let (p, q) =
        codegen_async_function-leaks s a (record j { handed = before ++ after }) missing in
      let n : 0 + length (before ++ a ∷ after) ≤ j.terminating_threads = rw (← e) h in
      rw (p, q) (omega (arith, n, length-middle before after a))

  -- In a state that steps lead to from one whose counter of terminating threads is the number of the
  -- host's tasks: if the host runs a task whose compiled module lacks the function, the counter is
  -- above the number of the host's tasks in every state that steps then lead to, whatever becomes of
  -- other tasks, so that it is never 0 and the destructor waits for ever.
  pub Steps-leaks :
      (i j k : MirJit) (a : AsyncMirFunction) (before after : List AsyncMirFunction)
      → Counted i
      → Steps s i j
      → j.handed ≡ before ++ a ∷ after
      → s.found a.script_function ≡ false
      → Steps s (codegen_async_function s a (record j { handed = before ++ after })) k
      → (1 + length k.handed ≤ k.terminating_threads) × (k.terminating_threads ≢ 0)
  Steps-leaks i j k a before after counted run e missing later =
      let counts_all =
        Steps-Holds s (Above 0) (starts-Above 0) (runs-Above 0) i j (omega (arith, counted)) run in
      let above : 1 + length k.handed ≤ k.terminating_threads =
        Steps-Holds s (Above 1) (starts-Above 1) (runs-Above 1) _ k
          (missing-Above a before after j e missing counts_all) later in
      (above, λ z. absurd (omega (arith, above, z)))
