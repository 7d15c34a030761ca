-- ===== src/Jit/Tests.antt =====
-- A driver with one function: registered, counted, translated, compiled by a task and linked.
use angelsea.Common.{
  ◌≢◌, ◌≤◌, ◌+◌, elem-single, elem, or-cases, ==_iff, inr, inl, Option-cases, Bool-cases, ℕ, ◌==◌,
  some, Option, length, if◌then◌else◌, true, false, ◌≡◌, refl, none, [], ◌∷◌,
}
use native.Mathlib.Omega.{arith}
use angelsea.FnConfig.{default_config}
use angelsea.Jit.Threads.{run_tasks}
use angelsea.Jit.Waits.{Steps-terminating}
use angelsea.Jit.Leaks.{Steps-leaks}
use angelsea.Jit.Termination.{FirstIn, AllIn, discover_fn_config-empties}
use angelsea.Jit.Lifecycle.{discover_fn_config}
use angelsea.Jit.State.{LazyMirFunction, AsyncMirFunction, JitFunction, EntryArg, MirJit, Setup}
use angelsea.Jit.Lifecycle.{
  discover_fn_config, set_jit_function, setup_jit_callback, start_task, finish_task,
  translate_lazy_function, link_ready_functions, count_hit, register_function, entry_counter,
  codegen_async_function, entry_await,
}
use angelsea.Jit.Live.{Valid}
use angelsea.Jit.Steps.{Steps, Step, Steps-Valid}

-- The first of the keys 4 and 7.
abbrev first_of : Option LazyMirFunction → Option LazyMirFunction → Option ℕ
first_of (some x) m = some 4
first_of none (some x) = some 7
first_of none none = none

abbrev setup : Setup
setup = record {
  request_fn_config = none;
  manual_discovery = false;
  eager = false;
  hits_before_func_compile = 0;
  too_complex = λ _. false;
  translated_args = λ _. 1 ∷ [];
  allocate = λ _. 100;
  has_compile_callback = true;
  found = λ _. true;
  first_lazy = λ j. first_of (j.lazy_functions 4) (j.lazy_functions 7);
}

abbrev start : MirJit
start = record {
  lazy_functions = λ _. none;
  codegen_functions = λ _. none;
  finished_functions = λ _. none;
  cancelled = λ _. false;
  ready = λ _. false;
  terminating_threads = 0;
  handed = [];
  functions =
      λ _. record { jit_function = JitFunction.no_function; entry_args = EntryArg.number 0 ∷ [] };
}

start-Valid : Valid start
start-Valid f = (refl, refl, refl)

abbrev task : AsyncMirFunction
task = record { address = 100; script_function = 4; jit_entry_args = 1 ∷ [] }

abbrev registered : MirJit
registered = register_function setup 4 start

abbrev lazy_fn : LazyMirFunction
lazy_fn = record { fn_config = none; hits_before_compile = 0 }

abbrev translated : MirJit
translated = (entry_counter setup 4 lazy_fn registered).1

abbrev compiled : MirJit
compiled = codegen_async_function setup task (record translated { handed = [] })

abbrev linked : MirJit
linked = (entry_await 100 compiled).1

to_translated : Steps setup start translated
unfolding register_function setup_jit_callback set_jit_function
to_translated =
    Steps.then_step start registered translated
      (Steps.then_step start start registered (Steps.stop start) (Step.registers 4 start refl))
      (Step.counts 4 lazy_fn registered refl refl)

run : Steps setup start linked
unfolding register_function setup_jit_callback set_jit_function entry_counter count_hit
    translate_lazy_function start_task
run =
    Steps.then_step start compiled linked
      (Steps.then_step start translated compiled to_translated
        (Step.runs_task task [] [] translated refl))
      (Step.awaits 100 compiled)

-- The function is linked at the end, and its JIT entry has its number back.
run-linked :
    linked.functions 4
    ≡ record { jit_function = JitFunction.compiled; entry_args = EntryArg.number 1 ∷ [] }
unfolding register_function setup_jit_callback set_jit_function entry_counter count_hit
    translate_lazy_function start_task codegen_async_function finish_task entry_await
    link_ready_functions
run-linked = refl

steps_example : Valid linked
steps_example = Steps-Valid setup (λ _. refl) start linked start-Valid run

terminating_example :
    (translated.terminating_threads ≡ length translated.handed)
    × ((run_tasks setup translated.handed translated).terminating_threads ≡ 0)
terminating_example = Steps-terminating setup (λ _. refl) start translated refl to_translated

-- The counter is 1 there: one task is on its way.
one-task : translated.terminating_threads ≡ 1
unfolding register_function setup_jit_callback set_jit_function entry_counter count_hit
    translate_lazy_function start_task
one-task = refl

-- No compiled module has its function.
abbrev broken : Setup
broken = record setup { found = λ _. false }

abbrev waiting : MirJit
waiting = (entry_counter broken 4 lazy_fn (register_function broken 4 start)).1

to_waiting : Steps broken start waiting
unfolding register_function setup_jit_callback set_jit_function
to_waiting =
    Steps.then_step start (register_function broken 4 start) waiting
      (Steps.then_step start start (register_function broken 4 start) (Steps.stop start)
        (Step.registers 4 start refl))
      (Step.counts 4 lazy_fn (register_function broken 4 start) refl refl)

handed_task : waiting.handed ≡ task ∷ []
unfolding register_function setup_jit_callback set_jit_function entry_counter count_hit
    translate_lazy_function start_task
handed_task = refl

abbrev failed : MirJit
failed = codegen_async_function broken task (record waiting { handed = [] })

leaks_example :
    let last = (entry_await 100 failed).1 in
    (1 + length last.handed ≤ last.terminating_threads) × (last.terminating_threads ≢ 0)
leaks_example =
    Steps-leaks broken start waiting (entry_await 100 failed).1 task [] [] refl to_waiting
      handed_task refl
      (Steps.then_step failed failed (entry_await 100 failed).1 (Steps.stop failed)
        (Step.awaits 100 failed))

abbrev eager_setup : Setup
eager_setup = record setup {
  request_fn_config = some (λ _. default_config);
  manual_discovery = true;
  eager = true;
}

-- Two functions wait for their configurations.
abbrev two_lazy : MirJit
two_lazy = record start {
  lazy_functions = λ f. if f == 4 then some lazy_fn else if f == 7 then some lazy_fn else none;
}

first-FirstIn : FirstIn (4 ∷ 7 ∷ []) eager_setup
first-FirstIn j a = elim (Option-cases (j.lazy_functions 4)) [
  | inr (x, e) ↦ inr (4, x, rw e refl, e)
  | inl e ↦ elim (Option-cases (j.lazy_functions 7)) [
    | inr (x, q) ↦ inr (7, x, rw (e, q) refl, q)
    | inl q ↦ inl (rw (e, q) refl, λ f. empty f e q)
  ]
]
  where
    empty :
        (f : ℕ) → j.lazy_functions 4 ≡ none → j.lazy_functions 7 ≡ none → j.lazy_functions f ≡ none
    empty f e q = elim (Option-cases (j.lazy_functions f)) [
      | inl p ↦ p
      | inr (x, p) ↦ elim (or-cases (4 == f) (elem f (7 ∷ [])) (a f x p)) [
        | inl h ↦ rw (← (==_iff 4 f).0 h) e
        | inr h ↦ rw (← elem-single f 7 h) q
      ]
    ]

two_lazy-AllIn : AllIn (4 ∷ 7 ∷ []) two_lazy
two_lazy-AllIn f x h = elim (Bool-cases (f == 4)) [
  | inl e ↦ rw ((==_iff f 4).0 e) refl
  | inr e ↦ elim (Bool-cases (f == 7)) [
    | inl q ↦ rw ((==_iff f 7).0 q) refl
    | inr q ↦ absurd (cc (rw (e, q) at h))
  ]
]

empties_example : (discover_fn_config eager_setup 2 two_lazy).lazy_functions 7 ≡ none
empties_example =
    discover_fn_config-empties eager_setup (4 ∷ 7 ∷ []) first-FirstIn (λ _. default_config) 2
      two_lazy refl refl two_lazy-AllIn (omega arith) 7
