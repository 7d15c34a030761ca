-- ===== src/Translate/Nesting.antt =====
-- emit_system_call of src/angelsea/detail/bytecode2c.cpp calls itself for the arguments that a native
-- call cleans: how deep that goes.
use mathlib.Core.Path.{fun_ext}
use angelsea.Common.{ℕ, suc, ◌+◌, ℤ, ◌≡◌, refl, ap, List, [], ◌∷◌, All, All-map}
use angelsea.Translate.CCode.{Piece}
use angelsea.Translate.Engine.{SClean, ScriptFunction}
use angelsea.Translate.State.{Ctx, M}
use angelsea.Translate.Calls.{SystemCall}
use angelsea.Translate.Native.Gather.{Gathered}
use angelsea.Translate.Native.Call.{
  clean_call, clean_by_release, clean_by_free, emit_clean_arg, argument_at, clean_base_offset,
  emit_clean_args_from, emit_clean_args,
}
use angelsea.Translate.SystemCalls.{emit_for_abis, emit_nested_system_call, emit_system_call}

module _ (nested other : SystemCall → M (Unit {0})) where
  -- Two ways to emit system calls agree on those that clean an argument.
  Agree : SClean → Type 0
  Agree x =
      (nested (clean_call x.release) ≡ other (clean_call x.release))
      × (nested (clean_call x.destruct) ≡ other (clean_call x.destruct))

  emit_clean_arg-Agree :
      (i : ℕ) (x : SClean) (e : List Piece)
      → Agree x
      → emit_clean_arg nested i x e ≡ emit_clean_arg other i x e
  unfolding Agree emit_clean_arg clean_by_release clean_by_free
  emit_clean_arg-Agree i x e (r, d) = rw (r, d) refl

  emit_clean_args_from-Agree :
      (fn : ScriptFunction) (g : Gathered) (i : ℕ) (l : List SClean)
      → All Agree l
      → emit_clean_args_from nested fn g i l ≡ emit_clean_args_from other fn g i l
  unfolding emit_clean_args_from
  emit_clean_args_from-Agree fn g i [] h = refl
  emit_clean_args_from-Agree fn g i (x ∷ rest) h =
      let e = argument_at (x.off + clean_base_offset fn) g in
      rw (emit_clean_arg-Agree i x e h.0, emit_clean_args_from-Agree fn g (suc i) rest h.1) refl

  emit_clean_args-Agree :
      (fn : ScriptFunction)
      → All Agree fn.clean_args
      → emit_clean_args nested fn ≡ emit_clean_args other fn
  unfolding emit_clean_args
  emit_clean_args-Agree fn h = fun_ext (λ g. emit_clean_args_from-Agree fn g 0 fn.clean_args h)

module _ (c : Ctx) where
  abbrev NothingToClean : ℤ → Type 0
  NothingToClean fn_idx = (c.engine.function fn_idx).clean_args ≡ []

  -- A call of a function with no arguments to clean nests nothing.
  flat_call :
      (n m : ℕ) (call : SystemCall)
      → NothingToClean call.fn_idx
      → emit_nested_system_call (suc n) c call ≡ emit_nested_system_call (suc m) c call
  unfolding emit_nested_system_call
  flat_call n m call h =
      let fn = c.engine.function call.fn_idx in
      let same =
        emit_clean_args-Agree (emit_nested_system_call n c) (emit_nested_system_call m c) fn
          (rw h tt) in
      ap (λ k. emit_for_abis c k call) same

  -- Where the behaviours that clean the arguments of the called function have no arguments to clean
  -- of their own: the code of a system call is the same at every depth of nesting from two on, so
  -- that emit_system_call, which goes two deep, leaves nothing out.
  pub emit_nested_system_call-enough :
      (n : ℕ) (call : SystemCall)
      → All
          (λ (x : SClean). NothingToClean x.release × NothingToClean x.destruct)
          (c.engine.function call.fn_idx).clean_args
      → emit_nested_system_call (suc (suc n)) c call ≡ emit_system_call c call
  unfolding emit_system_call emit_nested_system_call Agree
  emit_nested_system_call-enough n call h =
      let fn = c.engine.function call.fn_idx in
      let deep = emit_nested_system_call (suc n) c in
      let two = emit_nested_system_call 1 c in
      let agree =
        All-map _ (Agree deep two) fn.clean_args
          (λ x k.
            (flat_call n 0 (clean_call x.release) k.0, flat_call n 0 (clean_call x.destruct) k.1))
          h in
      ap (λ k. emit_for_abis c k call) (emit_clean_args-Agree deep two fn agree)
