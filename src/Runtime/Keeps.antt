-- ===== src/Runtime/Keeps.antt =====
-- Lemmas on the parts of asea_prepare_script_stack_common of src/angelsea/detail/runtime.cpp: what
-- the call state's place and the search for space leave as it is, and where they fail.
use angelsea.Common.{
  ℕ, ◌≡◌, refl, sym, ap, ◌∙◌, Bool, true, false, Option, none, some, inl, inr, Bool-cases, arith,
  ◌==◌, if◌then◌else◌,
}
use angelsea.Runtime.State.{CallStack, Context, CalledFunction, ScriptEngine, Reserves}
use angelsea.Runtime.Prepare.{
  push_call_state, make_room, use_reserved, lacks_space, copy_arguments, enter_function,
}

-- The call stack and the current function stay when space is made on the stack.
abbrev pub KeepsCall : Context → Context → Type 0
KeepsCall c c' = (c'.call_stack ≡ c.call_stack) × (c'.current_function ≡ c.current_function)

use_reserved-KeepsCall :
    (fn : CalledFunction) (sp : ℕ) (c : Context) (x : Bool × Context)
    → KeepsCall c x.1
    → KeepsCall c (use_reserved fn sp x).1
unfolding use_reserved copy_arguments
use_reserved-KeepsCall fn sp c (false, c') h = h
use_reserved-KeepsCall fn sp c (true, c') h = elim (Bool-cases (c'.stack_pointer == sp)) [
  | inl e ↦ rw e h
  | inr e ↦ rw e h
]

pub make_room-KeepsCall :
    (e : ScriptEngine) (r : Reserves e) (fn : CalledFunction) (sp : ℕ) (c : Context)
    → KeepsCall c (make_room e fn sp c).1
unfolding make_room
make_room-KeepsCall e r fn sp c = elim (Bool-cases (lacks_space e fn sp c)) [
  | inr free ↦ rw free (refl, refl)
  | inl lacks ↦ rw lacks (
      use_reserved-KeepsCall fn sp c (e.reserve_stack_space fn.stack_needed c)
        (r.call_stack_kept fn.stack_needed c, r.current_function_kept fn.stack_needed c))
]

pub enter_function-KeepsCall :
    (fn : CalledFunction) (c : Context) (x : Option ℕ × Context)
    → KeepsCall c x.1
    → KeepsCall c (enter_function fn x).1
unfolding enter_function
enter_function-KeepsCall fn c (none, c') h = h
enter_function-KeepsCall fn c (some p, c') h = h

pub push_call_state-current_function :
    (e : ScriptEngine) (c : Context) (fn : CalledFunction) (pc sp fp : ℕ) (cs : CallStack)
    → (push_call_state e c fn pc sp fp cs).current_function ≡ fn.address
unfolding push_call_state
push_call_state-current_function e c fn pc sp fp cs = refl

pub push_call_state-lacks_space :
    (e : ScriptEngine) (c : Context) (fn : CalledFunction) (pc sp fp : ℕ) (cs : CallStack)
    → lacks_space e fn sp c ≡ lacks_space e fn sp (push_call_state e c fn pc sp fp cs)
unfolding push_call_state lacks_space
push_call_state-lacks_space e c fn pc sp fp cs = refl

pub enter_function-fails :
    (fn : CalledFunction) (x : Option ℕ × Context) → (enter_function fn x).0 ≡ 1 → x.0 ≡ none
unfolding enter_function
enter_function-fails fn (none, c) h = refl
enter_function-fails fn (some p, c) h = absurd (omega (arith, h))

pub make_room-lacks :
    (e : ScriptEngine) (fn : CalledFunction) (sp : ℕ) (c : Context)
    → (make_room e fn sp c).0 ≡ none
    → lacks_space e fn sp c ≡ true
unfolding make_room
make_room-lacks e fn sp c h =
    let taken = use_reserved fn sp (e.reserve_stack_space fn.stack_needed c) in
    elim (Bool-cases (lacks_space e fn sp c)) [
      | inr free ↦
          absurd (cc (ap (λ (b : Bool). (if b then taken else (some sp, c)).0) (sym free) ∙ h))
      | inl lacks ↦ lacks
    ]
