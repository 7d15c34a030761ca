-- ===== src/Jit/Discover.antt =====
-- discover_fn_config of src/angelsea/detail/mirjit.cpp: it keeps every function in its phase, and
-- its loop over the functions that wait for compilation ends.
use angelsea.Common.{none, Option, List, ℕ, zero, suc, true, ◌≡◌, refl, some, inl, inr, Bool-cases}
use angelsea.FnConfig.{FnConfig}
use angelsea.Jit.State.{LazyMirFunction, AsyncMirFunction, JitFunction, EntryArg, MirJit, Setup}
use angelsea.Jit.Lifecycle.{
  is_none, fill_config, fill_configs, translate_at, eager_round, discover_by, eager_loop,
  discover_fn_config,
}
use angelsea.Jit.Live.{LiveAt, Live, Valid, Rest}
use angelsea.Jit.Operations.{if_keeps, translate_lazy_function-Valid}

-- A function that waits for compilation has no task.
lazy-Rest :
    (k : ℕ) (x : LazyMirFunction) (j : MirJit) → j.lazy_functions k ≡ some x → Valid j → Rest k j
lazy-Rest k x j e h =
    let at_k : Live j k = h k in
    let (c, d) =
      no_task (j.functions k).jit_function (j.functions k).entry_args x (j.codegen_functions k)
        (j.finished_functions k) k (rw e at at_k) in
    ((λ f _. h f), c, d)
  where
    no_task :
        (jf : JitFunction) (args : List EntryArg) (x : LazyMirFunction)
        → (c d : Option AsyncMirFunction) (k : ℕ) → LiveAt jf args (some x) c d k
        → (c ≡ none) × (d ≡ none)
    no_task JitFunction.no_function args x c d k (l, _, _) = absurd (cc l)
    no_task JitFunction.compiled args x c d k (l, _, _) = absurd (cc l)
    no_task JitFunction.entry_function_counter args x c d k (_, _, p, q) = (p, q)
    no_task JitFunction.entry_await_async args x c d k (_, _, l, _) = absurd (cc l)

filled-LiveAt :
    (request : ℕ → FnConfig) (jf : JitFunction) (args : List EntryArg) (l : Option LazyMirFunction)
    → (c d : Option AsyncMirFunction) (f : ℕ) → LiveAt jf args l c d f
    → LiveAt jf args (fill_config request f l) c d f
filled-LiveAt request JitFunction.no_function args l c d f (e, p, q) = (rw e refl, p, q)
filled-LiveAt request JitFunction.compiled args l c d f (e, p, q) = (rw e refl, p, q)
filled-LiveAt request JitFunction.entry_function_counter args l c d f (p, (x, e), q, r) =
    elim (Bool-cases (is_none x.fn_config)) [
      | inl n ↦ (p, (record x { fn_config = some (request f) }, rw (e, n) refl), q, r)
      | inr n ↦ (p, (x, rw (e, n) refl), q, r)
    ]
filled-LiveAt request JitFunction.entry_await_async args l c d f (a, p, e, h) = (a, p, rw e refl, h)

fill_configs-Valid :
    (request : ℕ → FnConfig) (j : MirJit) → Valid j → Valid (fill_configs request j)
fill_configs-Valid request j h f =
    filled-LiveAt request (j.functions f).jit_function (j.functions f).entry_args
      (j.lazy_functions f) (j.codegen_functions f) (j.finished_functions f) f (h f)

module _ (s : Setup) (found : (f : ℕ) → s.found f ≡ true) where
  eager_round-Valid : (o : Option ℕ) (j : MirJit) → Valid j → Valid (eager_round s o j)
  eager_round-Valid none j h = h
  eager_round-Valid (some f) j h = at_function (j.lazy_functions f) refl
    where
      at_function :
          (l : Option LazyMirFunction) → j.lazy_functions f ≡ l → Valid (translate_at s f l j)
      at_function none e = h
      at_function (some x) e =
          translate_lazy_function-Valid s found f x j (lazy-Rest f x j e h) (λ _. h f)

  eager_loop-Valid : (fuel : ℕ) (j : MirJit) → Valid j → Valid (eager_loop s fuel j)
  unfolding eager_loop
  eager_loop-Valid zero j h = h
  eager_loop-Valid (suc fuel) j h =
      eager_loop-Valid fuel (eager_round s (s.first_lazy j) j)
        (eager_round-Valid (s.first_lazy j) j h)

  discover_by-Valid :
      (fuel : ℕ) (o : Option (ℕ → FnConfig)) (j : MirJit) → Valid j → Valid (discover_by s fuel o j)
  discover_by-Valid fuel none j h = h
  discover_by-Valid fuel (some request) j h =
      if_keeps Valid s.eager (eager_loop s fuel (fill_configs request j)) (fill_configs request j)
        (eager_loop-Valid fuel (fill_configs request j) (fill_configs-Valid request j h))
        (fill_configs-Valid request j h)

  pub discover_fn_config-Valid :
      (fuel : ℕ) (j : MirJit) → Valid j → Valid (discover_fn_config s fuel j)
  unfolding discover_fn_config
  discover_fn_config-Valid fuel j h = discover_by-Valid fuel s.request_fn_config j h
