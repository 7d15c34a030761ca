-- ===== src/Jit/Operations.antt =====
-- Each operation of src/angelsea/detail/mirjit.cpp keeps every function in its phase.
use angelsea.Common.{
  ℕ, zero, suc, Bool, true, false, ◌≡◌, refl, ◌||◌, ◌&&◌, not, inl, inr, ◌==◌, ==_iff, ==_refl,
  Bool-cases, if◌then◌else◌,
}
use angelsea.Jit.State.{
  LazyMirFunction, AsyncMirFunction, JitFunction, EntryArg, MirJit, Setup, put,
}
use angelsea.Jit.Lifecycle.{
  unregister_function, set_jit_function, setup_jit_callback, codegen_async_function, task_for,
  hand_task, start_task, disables, is_none, translate_lazy_function, register_new, requested,
  register_new, register_function, count_hit, entry_counter,
}
use angelsea.Jit.Live.{
  Live, Valid, Rest, map-AllAre, give_up-Valid, start_task-Valid, finish_task-Valid,
}

-- The engine destroys a function, or takes its JIT function from it: it has the JIT clean up.
unfoldable pub clean_function : ℕ → MirJit → MirJit
clean_function f j =
    let j' = unregister_function f j in
    record j' {
      functions =
          put f (record (j'.functions f) { jit_function = JitFunction.no_function }) j'.functions;
    }

pub clean_function-Valid : (k : ℕ) (j : MirJit) → Valid j → Valid (clean_function k j)
unfolding clean_function unregister_function
clean_function-Valid k j h f = elim (Bool-cases (k == f)) [
  | inl e ↦ rw e (refl, refl, refl)
  | inr e ↦ rw e (h f)
]

pub contradictory : {P : Type 0} (a b c : Bool) → (not a && b) ≡ true → (a && c) ≡ true → P
contradictory true b c h k = absurd (cc h)
contradictory false b c h k = absurd (cc k)

-- A property of the state on both branches of a test.
pub if_keeps : (P : MirJit → Type 0) (b : Bool) (x y : MirJit) → P x → P y → P (if b then x else y)
if_keeps P true x y h k = h
if_keeps P false x y h k = k

-- The same for an operation with a result.
pub choose_keeps :
    (P : MirJit → Type 0) (b : Bool) (x y : Bool × MirJit)
    → (b ≡ true → P x.1)
    → P y.1
    → P (if b then x else y).1
choose_keeps P true x y h k = h refl
choose_keeps P false x y h k = k

module _ (s : Setup) (found : (f : ℕ) → s.found f ≡ true) where
  pub codegen_async_function-Valid :
      (a : AsyncMirFunction) (j : MirJit) → Valid j → Valid (codegen_async_function s a j)
  unfolding codegen_async_function
  codegen_async_function-Valid a j h = rw (found a.script_function) (finish_task-Valid a j h)

  hand_task-Valid : (a : AsyncMirFunction) (j : MirJit) → Valid j → Valid (hand_task s a j)
  hand_task-Valid a j h =
      if_keeps Valid s.has_compile_callback _ _ h (codegen_async_function-Valid a j h)

  -- Translation starts with the function in no map of tasks. Where it is put off, the state stays.
  pub translate_lazy_function-Valid :
      (k : ℕ) (x : LazyMirFunction) (j : MirJit)
      → Rest k j
      → ((s.manual_discovery && is_none x.fn_config) ≡ true → Live j k)
      → Valid (translate_lazy_function s k x j).1
  unfolding translate_lazy_function
  translate_lazy_function-Valid k x j r w =
      let a = task_for s k (j.codegen_functions k) j in
      choose_keeps Valid (s.manual_discovery && is_none x.fn_config) _ _
        (λ e f. elim (Bool-cases (k == f)) [
          | inl q ↦ rw (← (==_iff k f).0 q) (w e)
          | inr q ↦ r.0 f q
        ])
        (choose_keeps Valid (disables x.fn_config || s.too_complex k) _ _ (λ _. give_up-Valid k j r)
          (if_keeps Valid s.has_compile_callback _ _ (start_task-Valid k a j r)
            (codegen_async_function-Valid a (start_task k a j) (start_task-Valid k a j r))))

  count_hit-Valid :
      (k : ℕ) (x : LazyMirFunction) (hits : ℕ) (j : MirJit)
      → (j.functions k).jit_function ≡ JitFunction.entry_function_counter
      → Valid j
      → Valid (count_hit s k x hits j).1
  unfolding count_hit
  count_hit-Valid k x zero j e h f =
      let at_k : Live j k = h k in
      let phase = rw e at at_k in
      translate_lazy_function-Valid k x j ((λ f _. h f), phase.2, phase.3) (λ _. h k) f
  count_hit-Valid k x (suc n) j e h f =
      let at_k : Live j k = h k in
      let phase = rw e at at_k in
      elim (Bool-cases (k == f)) [
        | inl q ↦
            let r = (==_iff k f).0 q in
            rw (q, ← r, e) (phase.0, (record x { hits_before_compile = n }, refl), phase.2, phase.3)
        | inr q ↦ rw q (h f)
      ]

  pub entry_counter-Valid :
      (k : ℕ) (x : LazyMirFunction) (j : MirJit)
      → (j.functions k).jit_function ≡ JitFunction.entry_function_counter
      → Valid j
      → Valid (entry_counter s k x j).1
  unfolding entry_counter
  entry_counter-Valid k x j e h = count_hit-Valid k x x.hits_before_compile j e h

  register_new-Valid :
      (k : ℕ) (j : MirJit)
      → (j.functions k).jit_function ≡ JitFunction.no_function
      → Valid j
      → Valid (register_new s k j)
  unfolding setup_jit_callback set_jit_function
  register_new-Valid k j e h =
      let at_k : Live j k = h k in
      let phase = rw e at at_k in
      elim (Bool-cases (not s.manual_discovery && s.eager)) [
        | inl q ↦ rw q (
            translate_lazy_function-Valid k _ _ ((λ f n. rw n (h f)), phase.1, phase.2)
              (λ w. contradictory s.manual_discovery s.eager _ q w))
        | inr q ↦ rw q (λ f. elim (Bool-cases (k == f)) [
          | inl n ↦
              let r = (==_iff k f).0 n in
              let lazy_fn : LazyMirFunction = record {
                fn_config = requested s k;
                hits_before_compile = s.hits_before_func_compile;
              } in
              rw (n, ← r, ==_refl k, e, ==_refl k)
                (
                  map-AllAre (EntryArg.lazy_fn k) (j.functions k).entry_args,
                  (lazy_fn, refl),
                  phase.1,
                  phase.2,
                )
          | inr n ↦ rw (n, ==_refl k, e, n) (h f)
        ])
      ]

  pub register_function-Valid :
      (k : ℕ) (j : MirJit)
      → (j.functions k).jit_function ≡ JitFunction.no_function
      → Valid j
      → Valid (register_function s k j)
  unfolding register_function
  register_function-Valid k j e h =
      let at_k : Live j k = h k in
      let phase = rw e at at_k in rw (register_function, phase.0) (register_new-Valid k j e h)
