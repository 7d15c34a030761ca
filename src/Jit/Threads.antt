-- ===== src/Jit/Threads.antt =====
-- m_terminating_threads of src/angelsea/detail/mirjit.cpp, on which the destructor waits, counts the
-- tasks that the host has been handed and has not run.
use angelsea.Common.{
  Option-cases, ℕ, zero, suc, ◌-◌, Bool, true, false, ◌≡◌, refl, Option, none, some, List, map, [],
  ◌∷◌, inl, inr, ◌||◌, ◌&&◌, not, Bool-cases, length, length-append, arith,
}
use angelsea.FnConfig.{FnConfig}
use angelsea.Jit.State.{
  put, LazyMirFunction, AsyncMirFunction, JitFunction, EntryArg, MirJit, Setup,
}
use angelsea.Jit.Lifecycle.{
  unregister_function, is_null, set_jit_function, setup_jit_callback, give_up, codegen_fails,
  move_finished, finish_task, codegen_async_function, start_task, hand_task, task_for, disables,
  is_none, translate_lazy_function, register_new, requested, register_function, count_hit,
  entry_await, link_ready_functions, fill_configs, translate_at, eager_round, eager_loop,
  discover_by,
}
use angelsea.Jit.Operations.{if_keeps, choose_keeps}

-- An operation leaves the counter and the host's tasks as they are.
abbrev pub Same : MirJit → MirJit → Type 0
Same j i = (i.terminating_threads ≡ j.terminating_threads) × (i.handed ≡ j.handed)

move_finished-Same :
    (k : ℕ) (o : Option AsyncMirFunction) (j : MirJit) → Same j (move_finished k o j)
move_finished-Same k none j = (refl, refl)
move_finished-Same k (some b) j = (refl, refl)

finish_task-Same : (a : AsyncMirFunction) (j : MirJit) → Same j (finish_task a j)
unfolding finish_task
finish_task-Same a j =
    if_keeps (Same j) (j.cancelled a.address) _ _ (refl, refl)
      (move_finished-Same a.script_function (j.codegen_functions a.script_function) _)

-- Without the function in the compiled module the counter stays.
pub codegen_async_function-leaks :
    (s : Setup) (a : AsyncMirFunction) (j : MirJit)
    → s.found a.script_function ≡ false
    → Same j (codegen_async_function s a j)
unfolding codegen_async_function codegen_fails setup_jit_callback set_jit_function
codegen_async_function-leaks s a j e = rw e (refl, refl)

pub codegen_async_function-counts :
    (s : Setup) (a : AsyncMirFunction) (j : MirJit)
    → s.found a.script_function ≡ true
    → ((codegen_async_function s a j).terminating_threads ≡ j.terminating_threads - 1)
      × ((codegen_async_function s a j).handed ≡ j.handed)
unfolding codegen_async_function
codegen_async_function-counts s a j e = let (p, q) = finish_task-Same a j in rw (e, p) (refl, q)

-- The host runs tasks, one after another.
unfoldable pub run_tasks : Setup → List AsyncMirFunction → MirJit → MirJit
run_tasks s [] j = j
run_tasks s (a ∷ l) j = run_tasks s l (codegen_async_function s a (record j { handed = l }))

abbrev pub Counted : MirJit → Type 0
Counted j = j.terminating_threads ≡ length j.handed

module _ (s : Setup) (found : (f : ℕ) → s.found f ≡ true) where
  pub run_tasks-terminating :
      (l : List AsyncMirFunction) (j : MirJit)
      → j.terminating_threads ≡ length l
      → (run_tasks s l j).terminating_threads ≡ 0
  unfolding run_tasks
  run_tasks-terminating [] j h = h
  run_tasks-terminating (a ∷ l) j h =
      let (p, q) =
        codegen_async_function-counts s a (record j { handed = l }) (found a.script_function) in
      run_tasks-terminating l (codegen_async_function s a (record j { handed = l }))
        (omega (arith, p, h))

  -- A task is counted when it starts; without a compile callback it ends at once.
  pub hand_task-Counted :
      (k : ℕ) (a : AsyncMirFunction) (j : MirJit)
      → Counted j
      → Counted (hand_task s a (start_task k a j))
  unfolding start_task setup_jit_callback set_jit_function
  hand_task-Counted k a j h =
      let (p, q) = codegen_async_function-counts s a (start_task k a j) (found a.script_function) in
      if_keeps Counted s.has_compile_callback _ _
        (omega (arith, h, length-append j.handed (a ∷ []))) (rw (p, q) (omega (arith, h)))

set_jit_function-Same :
    (f : ℕ) (c : JitFunction) (b : Bool) (j : MirJit) → Same j (set_jit_function f c b j)
unfolding set_jit_function unregister_function
set_jit_function-Same f c b j = elim (Bool-cases (b || is_null (j.functions f).jit_function)) [
  | inl e ↦ rw e (refl, refl)
  | inr e ↦ rw e (refl, refl)
]

-- A property of the counter and the host's tasks.
abbrev pub Holds : (ℕ → List AsyncMirFunction → Type 0) → MirJit → Type 0
Holds Q j = Q j.terminating_threads j.handed

module _ (Q : ℕ → List AsyncMirFunction → Type 0) where
  Same-Holds : (j i : MirJit) → Same j i → Holds Q j → Holds Q i
  Same-Holds j i (p, q) h = rw (p, q) h

  setup_jit_callback-Holds :
      (f : ℕ) (c : JitFunction) (ud : EntryArg) (b : Bool) (j : MirJit)
      → Holds Q j
      → Holds Q (setup_jit_callback f c ud b j)
  unfolding setup_jit_callback
  setup_jit_callback-Holds f c ud b j h =
      let i = record j {
        functions =
            put f (record (j.functions f) { entry_args = map (λ _. ud) (j.functions f).entry_args })
              j.functions;
      } in
      Same-Holds i (set_jit_function f c b i) (set_jit_function-Same f c b i) h

-- What holds where a task has been handed to the host or run at once, the operations keep.
module _ (s : Setup) (Q : ℕ → List AsyncMirFunction → Type 0)
    (handed : (k : ℕ) (a : AsyncMirFunction) (j : MirJit)
      → Holds Q j
      → Holds Q (hand_task s a (start_task k a j))) where
  translate_lazy_function-Holds :
      (k : ℕ) (x : LazyMirFunction) (j : MirJit)
      → Holds Q j
      → Holds Q (translate_lazy_function s k x j).1
  unfolding translate_lazy_function give_up setup_jit_callback set_jit_function
  translate_lazy_function-Holds k x j h =
      choose_keeps (Holds Q) (s.manual_discovery && is_none x.fn_config) _ _ (λ _. h)
        (choose_keeps (Holds Q) (disables x.fn_config || s.too_complex k) _ _ (λ _. h)
          (handed k (task_for s k (j.codegen_functions k) j) j h))

  register_new-Holds : (k : ℕ) (j : MirJit) → Holds Q j → Holds Q (register_new s k j)
  register_new-Holds k j h =
      let x : LazyMirFunction = record {
        fn_config = requested s k;
        hits_before_compile = s.hits_before_func_compile;
      } in
      let i = record j { lazy_functions = put k (some x) j.lazy_functions } in
      if_keeps (Holds Q) (not s.manual_discovery && s.eager) (translate_lazy_function s k x i).1
        (setup_jit_callback k JitFunction.entry_function_counter (EntryArg.lazy_fn k) false i)
        (translate_lazy_function-Holds k x i h)
        (setup_jit_callback-Holds Q k JitFunction.entry_function_counter (EntryArg.lazy_fn k) false
          i h)

  pub register_function-Holds : (k : ℕ) (j : MirJit) → Holds Q j → Holds Q (register_function s k j)
  unfolding register_function
  register_function-Holds k j h = elim (Option-cases (j.lazy_functions k)) [
    | inl e ↦ rw (register_function, e) (register_new-Holds k j h)
    | inr (x, e) ↦ rw (register_function, e) h
  ]

  pub count_hit-Holds :
      (k : ℕ) (x : LazyMirFunction) (hits : ℕ) (j : MirJit)
      → Holds Q j
      → Holds Q (count_hit s k x hits j).1
  unfolding count_hit
  count_hit-Holds k x zero j h = translate_lazy_function-Holds k x j h
  count_hit-Holds k x (suc n) j h = h

  pub entry_await-Holds : (address : ℕ) (j : MirJit) → Holds Q j → Holds Q (entry_await address j).1
  unfolding entry_await link_ready_functions
  entry_await-Holds address j h = choose_keeps (Holds Q) (j.ready address) _ _ (λ _. h) h

  translate_at-Holds :
      (k : ℕ) (o : Option LazyMirFunction) (j : MirJit) → Holds Q j → Holds Q (translate_at s k o j)
  translate_at-Holds k none j h = h
  translate_at-Holds k (some x) j h = translate_lazy_function-Holds k x j h

  eager_round-Holds : (o : Option ℕ) (j : MirJit) → Holds Q j → Holds Q (eager_round s o j)
  eager_round-Holds none j h = h
  eager_round-Holds (some f) j h = translate_at-Holds f (j.lazy_functions f) j h

  eager_loop-Holds : (fuel : ℕ) (j : MirJit) → Holds Q j → Holds Q (eager_loop s fuel j)
  unfolding eager_loop
  eager_loop-Holds zero j h = h
  eager_loop-Holds (suc fuel) j h =
      eager_loop-Holds fuel (eager_round s (s.first_lazy j) j)
        (eager_round-Holds (s.first_lazy j) j h)

  pub discover_by-Holds :
      (fuel : ℕ) (o : Option (ℕ → FnConfig)) (j : MirJit)
      → Holds Q j
      → Holds Q (discover_by s fuel o j)
  discover_by-Holds fuel none j h = h
  discover_by-Holds fuel (some request) j h =
      if_keeps (Holds Q) s.eager _ _ (eager_loop-Holds fuel (fill_configs request j) h) h
