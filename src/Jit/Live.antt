-- ===== src/Jit/Live.antt =====
-- No JIT entry has the address of an object that is gone: what src/angelsea/detail/mirjit.cpp
-- keeps of the maps and of the functions' JIT entries.
use angelsea.Common.{
  ℕ, true, false, ◌≡◌, refl, Option, none, some, List, [], ◌∷◌, map, ◌⊎◌, inl, inr, ◌==◌, ==_iff,
  ==_refl, Bool-cases, All,
}
use angelsea.Jit.State.{
  LazyMirFunction, AsyncMirFunction, JitFunction, EntryArg, ScriptFunction, MirJit, put,
}
use angelsea.Jit.Lifecycle.{
  set_jit_function, setup_jit_callback, give_up, move_finished, finish_task, start_task, link_at,
  link_ready_functions, entry_await,
}

abbrev pub AllAre : EntryArg → List EntryArg → Type 0
AllAre x = All (λ y. y ≡ x)

pub map-AllAre : (x : EntryArg) (l : List EntryArg) → AllAre x (map (λ _. x) l)
map-AllAre x [] = tt
map-AllAre x (y ∷ l) = (refl, map-AllAre x l)

-- The phase that a function is in, by its JIT function: in no map, in the first map with its JIT
-- entries pointing to its object there, or in one of the other two with its JIT entries
-- pointing to its task.
abbrev pub LiveAt :
    JitFunction
    → List EntryArg
    → Option LazyMirFunction
    → Option AsyncMirFunction
    → Option AsyncMirFunction
    → ℕ
    → Type 0
LiveAt JitFunction.no_function args l c d f = (l ≡ none) × (c ≡ none) × (d ≡ none)
LiveAt JitFunction.compiled args l c d f = (l ≡ none) × (c ≡ none) × (d ≡ none)
LiveAt JitFunction.entry_function_counter args l c d f =
    AllAre (EntryArg.lazy_fn f) args
    × ((x : LazyMirFunction) × (l ≡ some x))
    × (c ≡ none)
    × (d ≡ none)
LiveAt JitFunction.entry_await_async args l c d f =
    (a : AsyncMirFunction) × AllAre (EntryArg.async_fn a.address) args
    × (l ≡ none)
    × ((c ≡ some a) × (d ≡ none) ⊎ (c ≡ none) × (d ≡ some a))

abbrev pub Live : MirJit → ℕ → Type 0
Live j f =
    LiveAt (j.functions f).jit_function (j.functions f).entry_args (j.lazy_functions f)
      (j.codegen_functions f) (j.finished_functions f) f

abbrev pub Valid : MirJit → Type 0
Valid j = (f : ℕ) → Live j f

-- Every function but one is in its phase, and that one has no task.
abbrev pub Rest : ℕ → MirJit → Type 0
Rest k j =
    ((f : ℕ) → (k == f) ≡ false → Live j f)
    × (j.codegen_functions k ≡ none)
    × (j.finished_functions k ≡ none)

pub give_up-Valid : (k : ℕ) (j : MirJit) → Rest k j → Valid (give_up k j)
unfolding give_up setup_jit_callback set_jit_function
give_up-Valid k j (h, c, d) f = elim (Bool-cases (k == f)) [
  | inl e ↦ let q = (==_iff k f).0 e in rw e (refl, rw (← q) c, rw (← q) d)
  | inr e ↦ rw e (h f e)
]

pub start_task-Valid :
    (k : ℕ) (a : AsyncMirFunction) (j : MirJit) → Rest k j → Valid (start_task k a j)
unfolding start_task setup_jit_callback set_jit_function
start_task-Valid k a j (h, c, d) f = elim (Bool-cases (k == f)) [
  | inl e ↦
      let q = (==_iff k f).0 e in
      rw (e, ==_refl k)
        (
          a,
          map-AllAre (EntryArg.async_fn a.address) (j.functions k).entry_args,
          refl,
          inl (refl, rw (← q) d),
        )
  | inr e ↦ rw e (h f e)
]

-- A task moves from one map to the next.
moved-LiveAt :
    (jf : JitFunction) (args : List EntryArg) (l : Option LazyMirFunction) (b : AsyncMirFunction)
    → (d : Option AsyncMirFunction) (f : ℕ) → LiveAt jf args l (some b) d f
    → LiveAt jf args l none (elim d [ none ↦ some b | some c ↦ some c ]) f
moved-LiveAt JitFunction.no_function args l b d f (_, c, _) = absurd (cc c)
moved-LiveAt JitFunction.compiled args l b d f (_, c, _) = absurd (cc c)
moved-LiveAt JitFunction.entry_function_counter args l b d f (_, _, c, _) = absurd (cc c)
moved-LiveAt JitFunction.entry_await_async args l b d f (a, p, q, inl (c, e)) =
    (a, p, q, inr (refl, rw e c))
moved-LiveAt JitFunction.entry_await_async args l b d f (a, p, q, inr (c, e)) = absurd (cc c)

move_finished-Valid :
    (k : ℕ) (o : Option AsyncMirFunction) (j : MirJit)
    → j.codegen_functions k ≡ o
    → Valid j
    → Valid (move_finished k o j)
move_finished-Valid k none j e h f = h f
move_finished-Valid k (some b) j e h f = elim (Bool-cases (k == f)) [
  | inl q ↦
      let r = (==_iff k f).0 q in
      let hk : Live j k = h k in
      let moved =
        moved-LiveAt (j.functions k).jit_function (j.functions k).entry_args (j.lazy_functions k) b
          (j.finished_functions k) k (rw e at hk) in
      rw (q, ← r) moved
  | inr q ↦ rw q (h f)
]

pub finish_task-Valid : (a : AsyncMirFunction) (j : MirJit) → Valid j → Valid (finish_task a j)
unfolding finish_task
finish_task-Valid a j h = elim (Bool-cases (j.cancelled a.address)) [
  | inl e ↦ rw e h
  | inr e ↦ rw e (
      move_finished-Valid a.script_function (j.codegen_functions a.script_function)
        (record j { ready = put a.address true j.ready }) refl h)
]

linked-LiveAt :
    (d : Option AsyncMirFunction) (g : ScriptFunction) (l : Option LazyMirFunction)
    → (c : Option AsyncMirFunction) (f : ℕ) → LiveAt g.jit_function g.entry_args l c d f
    → LiveAt (link_at d g).jit_function (link_at d g).entry_args l c none f
linked-LiveAt none g l c f h = h
linked-LiveAt (some a) g l c f h = let (p, q) = phase g.jit_function g.entry_args h in (p, q, refl)
  where
    phase :
        (jf : JitFunction) (args : List EntryArg)
        → LiveAt jf args l c (some a) f
        → (l ≡ none) × (c ≡ none)
    phase JitFunction.no_function args (_, _, e) = absurd (cc e)
    phase JitFunction.compiled args (_, _, e) = absurd (cc e)
    phase JitFunction.entry_function_counter args (_, _, _, e) = absurd (cc e)
    phase JitFunction.entry_await_async args (b, p, q, inl (_, e)) = absurd (cc e)
    phase JitFunction.entry_await_async args (b, p, q, inr (e, _)) = (q, e)

link_ready_functions-Valid : (j : MirJit) → Valid j → Valid (link_ready_functions j)
unfolding link_ready_functions
link_ready_functions-Valid j h f =
    linked-LiveAt (j.finished_functions f) (j.functions f) (j.lazy_functions f)
      (j.codegen_functions f) f (h f)

pub entry_await-Valid : (address : ℕ) (j : MirJit) → Valid j → Valid (entry_await address j).1
unfolding entry_await
entry_await-Valid address j h = elim (Bool-cases (j.ready address)) [
  | inl e ↦ rw e (link_ready_functions-Valid j h)
  | inr e ↦ rw e h
]
