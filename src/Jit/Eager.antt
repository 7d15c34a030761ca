-- ===== src/Jit/Eager.antt =====
-- The loop of discover_fn_config of src/angelsea/detail/mirjit.cpp, which translates every function
-- that waits, ends: each round takes its function from m_lazy_functions.
use angelsea.Common.{
  ◌++◌, ℕ, ◌+◌, ◌≤◌, ◌<◌, Bool, true, false, ◌≡◌, refl, ◌∙◌, ◌&&◌, ◌||◌, Option, none, some, List,
  [], ◌∷◌, inl, inr, ◌==◌, ==_iff, ==_refl, or-cases, Bool-cases, Option-cases, if◌then◌else◌, elem,
  length, arith,
}
use angelsea.Jit.State.{LazyMirFunction, AsyncMirFunction, MirJit, Setup, put}
use angelsea.Jit.Lifecycle.{
  set_jit_function, setup_jit_callback, give_up, codegen_fails, move_finished, finish_task,
  codegen_async_function, start_task, hand_task, task_for, disables, is_none,
  translate_lazy_function,
}

move_finished-lazy_functions :
    (k : ℕ) (o : Option AsyncMirFunction) (j : MirJit)
    → (move_finished k o j).lazy_functions ≡ j.lazy_functions
move_finished-lazy_functions k none j = refl
move_finished-lazy_functions k (some b) j = refl

codegen_async_function-lazy_functions :
    (s : Setup) (a : AsyncMirFunction) (j : MirJit)
    → (codegen_async_function s a j).lazy_functions ≡ j.lazy_functions
unfolding codegen_async_function finish_task codegen_fails setup_jit_callback set_jit_function
codegen_async_function-lazy_functions s a j = elim (Bool-cases (s.found a.script_function)) [
  | inl e ↦ elim (Bool-cases (j.cancelled a.address)) [
    | inl c ↦ rw (e, c) refl
    | inr c ↦ rw (e, c) (move_finished-lazy_functions a.script_function _ _)
  ]
  | inr e ↦ rw e refl
]

start_task-lazy_functions :
    (k : ℕ) (a : AsyncMirFunction) (j : MirJit)
    → (start_task k a j).lazy_functions ≡ put k none j.lazy_functions
unfolding start_task setup_jit_callback set_jit_function
start_task-lazy_functions k a j = refl

hand_task-lazy_functions :
    (s : Setup) (a : AsyncMirFunction) (j : MirJit)
    → (hand_task s a j).lazy_functions ≡ j.lazy_functions
hand_task-lazy_functions s a j =
    either s.has_compile_callback (record j { handed = j.handed ++ (a ∷ []) })
      (codegen_async_function s a j) refl (codegen_async_function-lazy_functions s a j)
  where
    either :
        (b : Bool) (x y : MirJit)
        → x.lazy_functions ≡ j.lazy_functions
        → y.lazy_functions ≡ j.lazy_functions
        → (if b then x else y).lazy_functions ≡ j.lazy_functions
    either true x y p q = p
    either false x y p q = q

-- Translation of a function whose configuration is known takes it from the map, whatever comes of it.
pub translate_lazy_function-lazy_functions :
    (s : Setup) (k : ℕ) (x : LazyMirFunction) (j : MirJit)
    → is_none x.fn_config ≡ false
    → (translate_lazy_function s k x j).1.lazy_functions ≡ put k none j.lazy_functions
unfolding translate_lazy_function give_up setup_jit_callback set_jit_function
translate_lazy_function-lazy_functions s k x j e =
    let known : (s.manual_discovery && is_none x.fn_config) ≡ false = ground (arith, e) in
    elim (Bool-cases (disables x.fn_config || s.too_complex k)) [
      | inl d ↦ rw (known, d) refl
      | inr d ↦
          rw (known, d)
            (hand_task-lazy_functions s (task_for s k (j.codegen_functions k) j)
                (start_task k (task_for s k (j.codegen_functions k) j) j)
              ∙ start_task-lazy_functions k (task_for s k (j.codegen_functions k) j) j)
    ]

-- The number of the functions in a list that wait for compilation.
abbrev pub is_waiting : Option LazyMirFunction → ℕ
is_waiting none = 0
is_waiting (some x) = 1

abbrev pub waiting : List ℕ → (ℕ → Option LazyMirFunction) → ℕ
waiting [] m = 0
waiting (f ∷ l) m = is_waiting (m f) + waiting l m

pub waiting-length : (l : List ℕ) (m : ℕ → Option LazyMirFunction) → waiting l m ≤ length l
waiting-length [] m = omega arith
waiting-length (f ∷ l) m = elim (Option-cases (m f)) [
  | inl e ↦ rw e (omega (arith, waiting-length l m))
  | inr (x, e) ↦ rw e (omega (arith, waiting-length l m))
]

pub waiting-none :
    (l : List ℕ) (m : ℕ → Option LazyMirFunction) → ((f : ℕ) → m f ≡ none) → waiting l m ≡ 0
waiting-none [] m h = refl
waiting-none (f ∷ l) m h = rw (h f) (omega (arith, waiting-none l m h))

pub waiting-pos :
    (l : List ℕ) (m : ℕ → Option LazyMirFunction) (f : ℕ) (x : LazyMirFunction)
    → elem f l ≡ true
    → m f ≡ some x
    → 0 < waiting l m
waiting-pos [] m f x h e = absurd (cc h)
waiting-pos (g ∷ l) m f x h e = elim (or-cases (g == f) (elem f l) h) [
  | inl q ↦ let r = (==_iff g f).0 q in rw (r, e) (omega arith)
  | inr q ↦ omega (arith, waiting-pos l m f x q e)
]

pub waiting-put :
    (l : List ℕ) (m : ℕ → Option LazyMirFunction) (f : ℕ) → waiting l (put f none m) ≤ waiting l m
waiting-put [] m f = omega arith
waiting-put (g ∷ l) m f = elim (Bool-cases (f == g)) [
  | inl q ↦ rw q (omega (arith, waiting-put l m f))
  | inr q ↦ rw q (omega (arith, waiting-put l m f))
]

pub waiting-put_lt :
    (l : List ℕ) (m : ℕ → Option LazyMirFunction) (f : ℕ) (x : LazyMirFunction)
    → elem f l ≡ true
    → m f ≡ some x
    → waiting l (put f none m) < waiting l m
waiting-put_lt [] m f x h e = absurd (cc h)
waiting-put_lt (g ∷ l) m f x h e = elim (or-cases (g == f) (elem f l) h) [
  | inl q ↦ let r = (==_iff g f).0 q in rw (r, ==_refl f, e) (omega (arith, waiting-put l m f))
  | inr q ↦ elim (Bool-cases (f == g)) [
    | inl p ↦ rw p (omega (arith, waiting-put_lt l m f x q e))
    | inr p ↦ rw p (omega (arith, waiting-put_lt l m f x q e))
  ]
]
