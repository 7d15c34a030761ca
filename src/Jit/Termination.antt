-- ===== src/Jit/Termination.antt =====
-- discover_fn_config of src/angelsea/detail/mirjit.cpp, with eager compilation, leaves no function
-- waiting, after as many rounds as functions may wait.
use angelsea.Common.{
  ℕ, zero, suc, ◌≤◌, true, false, ◌≡◌, refl, ap, ◌∙◌, Option, none, some, List, ◌⊎◌, inl, inr, ◌==◌,
  Bool-cases, Option-cases, if◌then◌else◌, elem, length, arith,
}
use angelsea.FnConfig.{FnConfig}
use angelsea.Jit.State.{LazyMirFunction, MirJit, Setup, put}
use angelsea.Jit.Lifecycle.{
  discover_by, is_none, translate_lazy_function, fill_configs, translate_at, eager_round,
  eager_loop, discover_fn_config,
}
use angelsea.Jit.Eager.{
  translate_lazy_function-lazy_functions, waiting, waiting-length, waiting-pos, waiting-none,
  waiting-put_lt,
}

-- The functions that wait are all in the list.
abbrev pub AllIn : List ℕ → MirJit → Type 0
AllIn l j = (f : ℕ) (x : LazyMirFunction) → j.lazy_functions f ≡ some x → elem f l ≡ true

-- What `begin` and `empty` of the container say: the first key is one of its keys, and there is none
-- only where it has none.
abbrev pub FirstIn : List ℕ → Setup → Type 0
FirstIn l s =
    (j : MirJit)
    → AllIn l j
    → (s.first_lazy j ≡ none) × ((f : ℕ) → j.lazy_functions f ≡ none)
      ⊎ ((f : ℕ) × (x : LazyMirFunction) × (s.first_lazy j ≡ some f)
          × (j.lazy_functions f ≡ some x))

-- Every function that waits has its configuration.
abbrev Configured : MirJit → Type 0
Configured j =
    (f : ℕ) (x : LazyMirFunction) → j.lazy_functions f ≡ some x → is_none x.fn_config ≡ false

module _ (s : Setup) (l : List ℕ) (first : FirstIn l s) where
  put-some :
      {V : Type 0} (k f : ℕ) (m : ℕ → Option V) (x : V) → put k none m f ≡ some x → m f ≡ some x
  put-some k f m x h = elim (Bool-cases (k == f)) [
    | inl e ↦ absurd (cc (rw e at h))
    | inr e ↦ rw e at h
  ]

  eager_loop-empties :
      (fuel : ℕ) (j : MirJit)
      → AllIn l j
      → Configured j
      → waiting l j.lazy_functions ≤ fuel
      → (f : ℕ) → (eager_loop s fuel j).lazy_functions f ≡ none
  unfolding eager_loop
  eager_loop-empties zero j a c w f = elim (Option-cases (j.lazy_functions f)) [
    | inl e ↦ e
    | inr (x, e) ↦ absurd (omega (arith, waiting-pos l j.lazy_functions f x (a f x e) e))
  ]
  eager_loop-empties (suc fuel) j a c w f = elim (first j a) [
    | inl (e, h) ↦
        ap (λ i. (eager_loop s fuel i).lazy_functions f) (ap (λ o. eager_round s o j) e)
        ∙ eager_loop-empties fuel j a c (rw (waiting-none l j.lazy_functions h) (omega arith)) f
    | inr (k, x, e, q) ↦
        let t = translate_lazy_function-lazy_functions s k x j (c k x q) in
        ap (λ i. (eager_loop s fuel i).lazy_functions f)
          (ap (λ o. eager_round s o j) e ∙ ap (λ o. translate_at s k o j) q)
        ∙ eager_loop-empties fuel (translate_lazy_function s k x j).1
            (λ g y h. a g y (put-some k g j.lazy_functions y (rw t at h)))
            (λ g y h. c g y (put-some k g j.lazy_functions y (rw t at h)))
            (rw t (omega (arith, waiting-put_lt l j.lazy_functions k x (a k x q) q))) f
  ]

  filled-Configured : (request : ℕ → FnConfig) (j : MirJit) → Configured (fill_configs request j)
  filled-Configured request j f x h = elim (Option-cases (j.lazy_functions f)) [
    | inl e ↦ absurd (cc (rw e at h))
    | inr (y, e) ↦ elim (Bool-cases (is_none y.fn_config)) [
      | inl n ↦
          let h' : some (record y { fn_config = some (request f) }) ≡ some x = rw (e, n) at h in
          let r : record y { fn_config = some (request f) } ≡ x = cc h' in rw (← r) refl
      | inr n ↦ let h' : some y ≡ some x = rw (e, n) at h in let r : y ≡ x = cc h' in rw (← r) n
    ]
  ]

  filled-AllIn :
      (request : ℕ → FnConfig) (j : MirJit) → AllIn l j → AllIn l (fill_configs request j)
  filled-AllIn request j a f x h = elim (Option-cases (j.lazy_functions f)) [
    | inl e ↦ absurd (cc (rw e at h))
    | inr (y, e) ↦ a f y e
  ]

  -- With eager compilation and a callback for configurations, discover_fn_config ends with no
  -- function waiting, after at most as many rounds of its loop as there are functions that may wait.
  pub discover_fn_config-empties :
      (request : ℕ → FnConfig) (fuel : ℕ) (j : MirJit)
      → s.request_fn_config ≡ some request
      → s.eager ≡ true
      → AllIn l j
      → length l ≤ fuel
      → (f : ℕ) → (discover_fn_config s fuel j).lazy_functions f ≡ none
  unfolding discover_fn_config
  discover_fn_config-empties request fuel j e q a n f =
      ap (λ o. (discover_by s fuel o j).lazy_functions f) e
      ∙ ap
          (λ b.
            (if b
                then eager_loop s fuel (fill_configs request j)
                else fill_configs request j).lazy_functions
              f)
          q
      ∙ eager_loop-empties fuel (fill_configs request j) (filled-AllIn request j a)
          (filled-Configured request j)
          (omega (arith, waiting-length l (fill_configs request j).lazy_functions, n)) f
