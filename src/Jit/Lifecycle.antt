-- ===== src/Jit/Lifecycle.antt =====
-- The operations of MirJit and the two JIT entry callbacks of src/angelsea/detail/mirjit.cpp.
use angelsea.Common.{
  ℕ, zero, suc, ◌+◌, ◌-◌, Bool, true, false, ◌||◌, not, ◌&&◌, Option, none, some, [], ◌∷◌, ◌++◌,
  map, if◌then◌else◌,
}
use angelsea.FnConfig.{FnConfig}
use angelsea.Jit.State.{
  LazyMirFunction, AsyncMirFunction, JitFunction, EntryArg, ScriptFunction, MirJit, Setup, put,
}

-- A task whose function is unregistered while the task still runs is kept until it ends.
abbrev pub cancel : Option AsyncMirFunction → MirJit → ℕ → Bool
cancel none j = j.cancelled
cancel (some a) j = if j.ready a.address then j.cancelled else put a.address true j.cancelled

unfoldable pub unregister_function : ℕ → MirJit → MirJit
unregister_function f j = record j {
  lazy_functions = put f none j.lazy_functions;
  codegen_functions = put f none j.codegen_functions;
  finished_functions = put f none j.finished_functions;
  cancelled = cancel (j.codegen_functions f) j;
}

abbrev pub is_null : JitFunction → Bool
is_null JitFunction.no_function = true
is_null _ = false

-- SetJITFunction of the engine: it has the JIT clean up a function that has a JIT function
-- already, which m_ignore_unregister makes unregister_function ignore.
unfoldable pub set_jit_function : ℕ → JitFunction → Bool → MirJit → MirJit
set_jit_function f callback ignore_unregister j =
    let j' =
      if ignore_unregister || is_null (j.functions f).jit_function
      then j
      else unregister_function f j in
    record j' {
      functions = put f (record (j'.functions f) { jit_function = callback }) j'.functions;
    }

unfoldable pub setup_jit_callback : ℕ → JitFunction → EntryArg → Bool → MirJit → MirJit
setup_jit_callback f callback ud ignore_unregister j =
    set_jit_function f callback ignore_unregister (record j {
      functions =
          put f (record (j.functions f) { entry_args = map (λ _. ud) (j.functions f).entry_args })
            j.functions;
    })

abbrev pub erase_lazy : ℕ → MirJit → MirJit
erase_lazy f j = record j { lazy_functions = put f none j.lazy_functions }

-- The function goes back to the interpreter for good.
unfoldable pub give_up : ℕ → MirJit → MirJit
give_up f j = erase_lazy f (setup_jit_callback f JitFunction.no_function (EntryArg.number 0) true j)

-- The end of codegen_async_function where the module lacks the function: the counter of
-- terminating threads stays.
unfoldable pub codegen_fails : AsyncMirFunction → MirJit → MirJit
codegen_fails a j =
    let j' =
      setup_jit_callback a.script_function JitFunction.no_function (EntryArg.number 0) true j in
    record j' { codegen_functions = put a.script_function none j'.codegen_functions }

abbrev pub move_finished : ℕ → Option AsyncMirFunction → MirJit → MirJit
move_finished f none j = j
move_finished f (some b) j = record j {
  finished_functions =
      put f (elim (j.finished_functions f) [ none ↦ some b | some c ↦ some c ])
        j.finished_functions;
  codegen_functions = put f none j.codegen_functions;
}

-- The rest of codegen_async_function, behind the code generation by MIR. The task of a
-- function that is registered is in m_async_codegen_functions.
unfoldable pub finish_task : AsyncMirFunction → MirJit → MirJit
finish_task a j =
    if j.cancelled a.address
    then record j { cancelled = put a.address false j.cancelled }
    else move_finished a.script_function (j.codegen_functions a.script_function)
        (record j { ready = put a.address true j.ready })

unfoldable pub codegen_async_function : Setup → AsyncMirFunction → MirJit → MirJit
codegen_async_function s a j =
    if not (s.found a.script_function)
    then codegen_fails a j
    else let j' = finish_task a j in record j' { terminating_threads = j'.terminating_threads - 1 }

-- try_emplace: a task that is there already is kept.
abbrev pub task_for : Setup → ℕ → Option AsyncMirFunction → MirJit → AsyncMirFunction
task_for s f (some a) j = a
task_for s f none j = record {
  address = s.allocate j;
  script_function = f;
  jit_entry_args = s.translated_args f;
}

-- A new task is not ready.
abbrev pub ready_for : Option AsyncMirFunction → ℕ → (ℕ → Bool) → ℕ → Bool
ready_for none address ready = put address false ready
ready_for (some a) address ready = ready

-- The function has been translated: its task awaits.
unfoldable pub start_task : ℕ → AsyncMirFunction → MirJit → MirJit
start_task f a j = erase_lazy f (
    setup_jit_callback f JitFunction.entry_await_async (EntryArg.async_fn a.address) true
      (record j {
        codegen_functions = put f (some a) j.codegen_functions;
        ready = ready_for (j.codegen_functions f) a.address j.ready;
        terminating_threads = j.terminating_threads + 1;
      }))

abbrev pub disables : Option FnConfig → Bool
disables none = false
disables (some c) = c.disable_jit

abbrev pub is_none : Option FnConfig → Bool
is_none none = true
is_none (some c) = false

-- m_compile_callback: the host takes the task. Without one the task runs at once.
abbrev pub hand_task : Setup → AsyncMirFunction → MirJit → MirJit
hand_task s a j =
    if s.has_compile_callback
    then record j { handed = j.handed ++ (a ∷ []) }
    else codegen_async_function s a j

-- translate_lazy_function, with its result.
unfoldable pub translate_lazy_function : Setup → ℕ → LazyMirFunction → MirJit → Bool × MirJit
translate_lazy_function s f lazy_fn j =
    let a = task_for s f (j.codegen_functions f) j in
    if s.manual_discovery && is_none lazy_fn.fn_config
    then (false, j)
    else if disables lazy_fn.fn_config || s.too_complex f
    then (false, give_up f j)
    else (true, hand_task s a (start_task f a j))

abbrev pub requested : Setup → ℕ → Option FnConfig
requested s f =
    if s.manual_discovery
    then none
    else elim s.request_fn_config [ none ↦ none | some request ↦ some (request f) ]

abbrev pub register_new : Setup → ℕ → MirJit → MirJit
register_new s f j =
    let lazy_fn : LazyMirFunction = record {
      fn_config = requested s f;
      hits_before_compile = s.hits_before_func_compile;
    } in
    let j' = record j { lazy_functions = put f (some lazy_fn) j.lazy_functions } in
    if not s.manual_discovery && s.eager
    then (translate_lazy_function s f lazy_fn j').1
    else setup_jit_callback f JitFunction.entry_function_counter (EntryArg.lazy_fn f) false j'

unfoldable pub register_function : Setup → ℕ → MirJit → MirJit
register_function s f j = elim (j.lazy_functions f) [ none ↦ register_new s f j | some _ ↦ j ]

abbrev pub link_at : Option AsyncMirFunction → ScriptFunction → ScriptFunction
link_at none f = f
link_at (some a) f = record {
  jit_function = JitFunction.compiled;
  entry_args = map EntryArg.number a.jit_entry_args;
}

-- link_ready_functions, with link_function for each.
unfoldable pub link_ready_functions : MirJit → MirJit
link_ready_functions j = record j {
  functions = λ f. link_at (j.finished_functions f) (j.functions f);
  finished_functions = λ _. none;
}

-- jit_entry_function_counter on the object that its argument points to, by the hits that are
-- left to it, and whether the entry is run again.
unfoldable pub count_hit : Setup → ℕ → LazyMirFunction → ℕ → MirJit → Bool × MirJit
count_hit s f lazy_fn zero j = translate_lazy_function s f lazy_fn j
count_hit s f lazy_fn (suc n) j = (
  false,
  record j {
    lazy_functions = put f (some (record lazy_fn { hits_before_compile = n })) j.lazy_functions;
  },
)

unfoldable pub entry_counter : Setup → ℕ → LazyMirFunction → MirJit → Bool × MirJit
entry_counter s f lazy_fn j = count_hit s f lazy_fn lazy_fn.hits_before_compile j

-- jit_entry_await_async on the task that its argument points to.
unfoldable pub entry_await : ℕ → MirJit → Bool × MirJit
entry_await address j = if j.ready address then (true, link_ready_functions j) else (false, j)

abbrev pub fill_config : (ℕ → FnConfig) → ℕ → Option LazyMirFunction → Option LazyMirFunction
fill_config request f none = none
fill_config request f (some x) =
    if is_none x.fn_config then some (record x { fn_config = some (request f) }) else some x

abbrev pub translate_at : Setup → ℕ → Option LazyMirFunction → MirJit → MirJit
translate_at s f none j = j
translate_at s f (some x) j = (translate_lazy_function s f x j).1

-- A round of the loop of discover_fn_config: the first function of m_lazy_functions, if any.
abbrev pub eager_round : Setup → Option ℕ → MirJit → MirJit
eager_round s none j = j
eager_round s (some f) j = translate_at s f (j.lazy_functions f) j

-- The loop for `fuel` rounds; where m_lazy_functions is empty they leave everything as it is.
unfoldable pub eager_loop : Setup → ℕ → MirJit → MirJit
eager_loop s zero j = j
eager_loop s (suc fuel) j = eager_loop s fuel (eager_round s (s.first_lazy j) j)

abbrev pub fill_configs : (ℕ → FnConfig) → MirJit → MirJit
fill_configs request j = record j {
  lazy_functions = λ f. fill_config request f (j.lazy_functions f);
}

abbrev pub discover_by : Setup → ℕ → Option (ℕ → FnConfig) → MirJit → MirJit
discover_by s fuel none j = j
discover_by s fuel (some request) j =
    if s.eager then eager_loop s fuel (fill_configs request j) else fill_configs request j

unfoldable pub discover_fn_config : Setup → ℕ → MirJit → MirJit
discover_fn_config s fuel j = discover_by s fuel s.request_fn_config j
