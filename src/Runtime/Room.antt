-- ===== src/Runtime/Room.antt =====
-- The stack of the function that src/angelsea/detail/runtime.cpp enters: its space, its arguments
-- and its variables.
use angelsea.Common.{
  ℕ, zero, suc, ◌+◌, ◌-◌, ◌≤◌, ◌<◌, ◌≡◌, refl, sym, ap, ◌∙◌, Bool, true, false, Option, none, some,
  inl, inr, if-intro, ==_iff, Option-cases, arith, ◌==◌, leb, ltb,
}
use angelsea.Runtime.State.{Context, CalledFunction, ScriptEngine, Reserves}
use angelsea.Runtime.Prepare.{
  grow, push_call_state, make_room, use_reserved, lacks_space, copy_arguments, enter_function,
  prepare_from, asea_prepare_script_stack, asea_prepare_script_stack_and_vars, num_dwords, memcpy,
  memset_zero, clear_variables,
}

-- There is space under `p` for the function `fn` and the reserve, and its arguments, which were at
-- `sp` in the memory `m`, stand there.
record Room (e : ScriptEngine) (fn : CalledFunction) (sp : ℕ) (m : ℕ → ℕ) (p : ℕ) (c' : Context)
    : Type 0 where
  space : c'.stack_blocks c'.stack_index + (fn.stack_needed + e.reserve_stack) ≤ p
  arguments : (i : ℕ) → i < num_dwords fn → c'.memory (p + i) ≡ m (sp + i)
  pointer : c'.stack_pointer ≡ p

-- The same of a result that may be a failure.
abbrev HasRoom : ScriptEngine → CalledFunction → ℕ → (ℕ → ℕ) → Option ℕ × Context → Type 0
HasRoom e fn sp m (none, c) = Unit
HasRoom e fn sp m (some p, c) = Room e fn sp m p c

memcpy-inside : (dst src n i : ℕ) (m : ℕ → ℕ) → i < n → memcpy dst src n m (dst + i) ≡ m (src + i)
memcpy-inside dst src n i m lt =
    let low : leb dst (dst + i) ≡ true = ground arith in
    let high : ltb (dst + i) (dst + n) ≡ true = ground (arith, lt) in
    let offset : dst + i - dst ≡ i = omega arith in rw (low, high, offset) refl

copy_arguments-Room :
    (e : ScriptEngine) (fn : CalledFunction) (sp : ℕ) (c : Context)
    → c.stack_blocks c.stack_index + (fn.stack_needed + e.reserve_stack) ≤ c.stack_pointer
    → let c' = copy_arguments fn sp c in Room e fn sp c.memory c'.stack_pointer c'
unfolding copy_arguments
copy_arguments-Room e fn sp c found =
    if-intro (λ c'. Room e fn sp c.memory c'.stack_pointer c') (c.stack_pointer == sp) c _
      (λ stays. record {
        space = found;
        arguments = λ i lt. ap (λ p. c.memory (p + i)) ((==_iff c.stack_pointer sp).0 stays);
        pointer = refl;
      })
      (λ moves. record {
        space = found;
        arguments = λ i lt. memcpy-inside c.stack_pointer sp (num_dwords fn) i c.memory lt;
        pointer = refl;
      })

use_reserved-HasRoom :
    (e : ScriptEngine) (fn : CalledFunction) (sp : ℕ) (m : ℕ → ℕ) (x : Bool × Context)
    → x.1.memory ≡ m
    → (x.0 ≡ true
        → x.1.stack_blocks x.1.stack_index + (fn.stack_needed + e.reserve_stack)
          ≤ x.1.stack_pointer)
    → HasRoom e fn sp m (use_reserved fn sp x)
unfolding use_reserved
use_reserved-HasRoom e fn sp m (false, c) same found = tt
use_reserved-HasRoom e fn sp m (true, c) same found =
    rw (← same) (copy_arguments-Room e fn sp c (found refl))

make_room-HasRoom :
    (e : ScriptEngine) (r : Reserves e) (fn : CalledFunction) (sp : ℕ) (c : Context)
    → c.stack_pointer ≡ sp
    → HasRoom e fn sp c.memory (make_room e fn sp c)
unfolding make_room lacks_space
make_room-HasRoom e r fn sp c at_sp =
    if-intro (HasRoom e fn sp c.memory) (lacks_space e fn sp c) _ (some sp, c)
      (λ lacks.
        use_reserved-HasRoom e fn sp c.memory (e.reserve_stack_space fn.stack_needed c)
          (r.memory_kept fn.stack_needed c) (r.space_found fn.stack_needed c))
      (λ free. record { space = ground (arith, free); arguments = λ i lt. refl; pointer = at_sp })

-- What a function finds that has been entered with `c`, its arguments at `sp` in the memory `m`.
pub record Entered (e : ScriptEngine) (fn : CalledFunction) (sp : ℕ) (m : ℕ → ℕ) (c : Context)
    : Type 0 where
  pub space :
      c.stack_blocks c.stack_index + (fn.stack_needed + e.reserve_stack) ≤ c.stack_frame_pointer
  pub arguments : (i : ℕ) → i < num_dwords fn → c.memory (c.stack_frame_pointer + i) ≡ m (sp + i)
  pub variables : c.stack_pointer ≡ c.stack_frame_pointer - fn.variable_space
  pub code : c.program_pointer ≡ fn.byte_code

enter_function-Entered :
    (e : ScriptEngine) (fn : CalledFunction) (sp : ℕ) (m : ℕ → ℕ) (x : Option ℕ × Context)
    → HasRoom e fn sp m x
    → (enter_function fn x).0 ≡ 0
    → Entered e fn sp m (enter_function fn x).1
unfolding enter_function
enter_function-Entered e fn sp m (none, c) h ok = absurd (omega (arith, ok))
enter_function-Entered e fn sp m (some p, c) h ok = record {
  space = h.space;
  arguments = h.arguments;
  variables = ap (λ q. q - fn.variable_space) h.pointer;
  code = refl;
}

memset_zero-inside : (dst n i : ℕ) (m : ℕ → ℕ) → i < n → memset_zero dst n m (dst + i) ≡ 0
memset_zero-inside dst n i m lt = ground (arith, lt)

memset_zero-above : (dst n k : ℕ) (m : ℕ → ℕ) → dst + n ≤ k → memset_zero dst n m k ≡ m k
memset_zero-above dst n k m le = ground (arith, le)

-- The function is entered, and its variables, which are all 0, start above the reserve.
pub record Started (e : ScriptEngine) (fn : CalledFunction) (sp : ℕ) (m : ℕ → ℕ) (c : Context)
    : Type 0 where
  pub entered : Entered e fn sp m c
  pub top : c.stack_pointer + fn.variable_space ≡ c.stack_frame_pointer
  pub reserve : c.stack_blocks c.stack_index + e.reserve_stack ≤ c.stack_pointer
  pub cleared : (i : ℕ) → i < fn.variable_space → c.memory (c.stack_pointer + i) ≡ 0

clear_variables-Started :
    (e : ScriptEngine) (fn : CalledFunction) (sp : ℕ) (m : ℕ → ℕ) (x : ℕ × Context)
    → fn.variable_space ≤ fn.stack_needed
    → (x.0 ≡ 0 → Entered e fn sp m x.1)
    → (clear_variables fn x).0 ≡ 0
    → Started e fn sp m (clear_variables fn x).1
unfolding clear_variables
clear_variables-Started e fn sp m (suc k, c) fits run ok = absurd (omega (arith, ok))
clear_variables-Started e fn sp m (zero, c) fits run ok =
    let h = run refl in
    let top : c.stack_pointer + fn.variable_space ≡ c.stack_frame_pointer =
      omega (arith, h.variables, h.space, fits) in
    record {
      entered = record {
        space = h.space;
        arguments = λ i lt.
            memset_zero-above c.stack_pointer fn.variable_space (c.stack_frame_pointer + i) c.memory
              (omega (arith, top))
            ∙ h.arguments i lt;
        variables = h.variables;
        code = h.code;
      };
      top = top;
      reserve = omega (arith, h.variables, h.space, fits);
      cleared = λ i lt. memset_zero-inside c.stack_pointer fn.variable_space i c.memory lt;
    }

module _ (e : ScriptEngine) (r : Reserves e) (c : Context) (fn : CalledFunction)
    (pc sp fp : ℕ) where
  -- A function that has been entered has the space it needs with the reserve below its frame, its
  -- arguments from the caller's stack, and starts at its code with the stack pointer below its
  -- variables.
  pub asea_prepare_script_stack-Entered :
      (asea_prepare_script_stack e c fn pc sp fp).0 ≡ 0
      → Entered e fn sp c.memory (asea_prepare_script_stack e c fn pc sp fp).1
  unfolding asea_prepare_script_stack prepare_from push_call_state
  asea_prepare_script_stack-Entered ok = elim (Option-cases (grow e c.call_stack)) [
    | inl full ↦
        let one : 1 ≡ 0 = ap (λ o. (prepare_from e c fn pc sp fp o).0) (sym full) ∙ ok in
        absurd (omega (arith, one))
    | inr (cs, got) ↦
        let p = push_call_state e c fn pc sp fp cs in
        let x = make_room e fn sp p in
        let zero = ap (λ o. (prepare_from e c fn pc sp fp o).0) (sym got) ∙ ok in
        rw got (enter_function-Entered e fn sp c.memory x (make_room-HasRoom e r fn sp p refl) zero)
  ]

  -- Where the space for the variables is a part of the space that the function needs: a function that
  -- has been entered with asea_prepare_script_stack_and_vars has its space, its arguments and its
  -- code, its variables lie between the reserve and its frame, and all of them are 0.
  pub asea_prepare_script_stack_and_vars-Started :
      fn.variable_space ≤ fn.stack_needed
      → (asea_prepare_script_stack_and_vars e c fn pc sp fp).0 ≡ 0
      → Started e fn sp c.memory (asea_prepare_script_stack_and_vars e c fn pc sp fp).1
  unfolding asea_prepare_script_stack_and_vars
  asea_prepare_script_stack_and_vars-Started fits ok =
      clear_variables-Started e fn sp c.memory (asea_prepare_script_stack e c fn pc sp fp) fits
        asea_prepare_script_stack-Entered ok
