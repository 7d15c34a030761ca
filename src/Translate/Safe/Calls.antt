-- ===== src/Translate/Safe/Calls.antt =====
-- Script calls, system calls, object and memory instructions keep every jump safe.
use angelsea.Common.{
  ℕ, zero, suc, ℤ, pos, Bool, true, false, ◌&&◌, Option, none, some, List, [], ◌∷◌, ltbℤ,
}
use angelsea.Translate.CCode.{Expr, Piece}
use angelsea.Translate.Engine.{Abi, CallConv, ScriptVariable, ScriptFunction, ObjectType}
use angelsea.Translate.State.{Ctx}
use angelsea.Translate.Calls.{
  SystemCall, ScriptCall, clear_variables, call_by_engine, enter_callee, call_known, call_unknown,
  emit_direct_script_call_ins, save_context,
}
use angelsea.Translate.SystemCalls.{
  load_object, store_generic_result, generic_call, emit_direct_system_call_generic, push_self,
  call_by_convention, store_object, emit_direct_system_call, call_system_by_engine, emit_for_abi,
  emit_system_call, Cleans, emit_for_abis, emit_nested_system_call,
}
use angelsea.Translate.Objects.{
  alloc_script_object, alloc_registered, emit_alloc, free_object, free_variable, emit_free,
  swap_references, emit_ref_cpy_v, emit_refcpy, emit_loadobj, emit_storeobj,
}
use angelsea.Translate.Native.Gather.{Gathered}
use angelsea.Translate.Native.Call.{emit_clean_args}
use angelsea.Translate.Safe.Native.{Keeps-emit_direct_system_call_native, Keeps-emit_clean_args}
use angelsea.Translate.Safe.Rules.{Keeps, Keeps-if, Keeps-then, keeps}
use angelsea.Translate.Safe.Emitters.{emitters}

module _ (bt : List ℕ) (c : Ctx) where
  Keeps-clear_variables :
      (b : Bool) (vars : List ScriptVariable) → Keeps bt (clear_variables b vars)
  unfolding clear_variables
  Keeps-clear_variables b [] = search emitters
  Keeps-clear_variables b (var ∷ rest) =
      Keeps-if bt (ltbℤ (pos 0) var.stack_offset && var.clears) _ _
        (Keeps-then bt _ _ (search emitters)
          (Keeps-then bt _ _ (search emitters) (Keeps-clear_variables true rest)))
        (Keeps-clear_variables b rest)

  Keeps-enter_callee : (b : Bool) (ps : List Piece) → Keeps bt (enter_callee c b ps)
  unfolding enter_callee
  Keeps-enter_callee true ps = search emitters
  Keeps-enter_callee false ps = search emitters

  Keeps-call_by_engine : (ps : List Piece) → Keeps bt (call_by_engine c ps)
  unfolding call_by_engine
  Keeps-call_by_engine ps = search emitters

  Keeps-call_known : (fn_idx : ℤ) → Keeps bt (call_known c fn_idx)
  unfolding call_known
  Keeps-call_known fn_idx =
      search (emitters, Keeps-clear_variables, Keeps-enter_callee, Keeps-call_by_engine)

  Keeps-call_unknown : (e : Expr) → Keeps bt (call_unknown c e)
  unfolding call_unknown
  Keeps-call_unknown x = search (emitters, Keeps-enter_callee, Keeps-call_by_engine)

  pub Keeps-emit_direct_script_call_ins :
      (call : ScriptCall) → Keeps bt (emit_direct_script_call_ins c call)
  unfolding emit_direct_script_call_ins
  Keeps-emit_direct_script_call_ins (ScriptCall.by_idx n) = search (emitters, Keeps-call_known)
  Keeps-emit_direct_script_call_ins (ScriptCall.by_expr f e) = Keeps-call_unknown e

  Keeps-save_context : Keeps bt (save_context c)
  unfolding save_context
  Keeps-save_context = search emitters

  Keeps-load_object : (o : Option Expr) → Keeps bt (load_object c o)
  unfolding load_object
  Keeps-load_object none = search emitters
  Keeps-load_object (some e) = search emitters

  Keeps-store_generic_result : (n : ℤ) (f : ScriptFunction) → Keeps bt (store_generic_result c n f)
  unfolding store_generic_result store_object
  Keeps-store_generic_result n f = search emitters depth 8

  Keeps-generic_call : (call : SystemCall) (f : ScriptFunction) → Keeps bt (generic_call c call f)
  unfolding generic_call
  Keeps-generic_call call f =
      search (emitters, Keeps-save_context, Keeps-load_object, Keeps-store_generic_result) depth 20

  Keeps-emit_direct_system_call_generic :
      (call : SystemCall) (f : ScriptFunction) → Keeps bt (emit_direct_system_call_generic c call f)
  unfolding emit_direct_system_call_generic
  Keeps-emit_direct_system_call_generic call f = search (keeps, Keeps-generic_call)

  module _ (cleans : Cleans) (k : (g : Gathered) → Keeps bt (cleans g)) where
    Keeps-call_by_convention :
        (call : SystemCall) (abi : Abi) (f : ScriptFunction) (conv : CallConv)
        → Keeps bt (call_by_convention c cleans call abi f conv)
    unfolding call_by_convention
    Keeps-call_by_convention call abi f CallConv.generic_func =
        search Keeps-emit_direct_system_call_generic
    Keeps-call_by_convention call abi f CallConv.generic_method =
        search Keeps-emit_direct_system_call_generic
    Keeps-call_by_convention call abi f _ =
        Keeps-emit_direct_system_call_native bt cleans k c call f abi

    Keeps-emit_direct_system_call :
        (call : SystemCall) (abi : Abi) → Keeps bt (emit_direct_system_call c cleans call abi)
    unfolding emit_direct_system_call
    Keeps-emit_direct_system_call call abi = search (keeps, Keeps-call_by_convention)

  Keeps-push_self : (o : Option Expr) → Keeps bt (push_self o)
  unfolding push_self
  Keeps-push_self none = search emitters
  Keeps-push_self (some e) = search emitters

  Keeps-call_system_by_engine :
      (call : SystemCall) (b : Bool) → Keeps bt (call_system_by_engine c call b)
  unfolding call_system_by_engine
  Keeps-call_system_by_engine call true = search emitters
  Keeps-call_system_by_engine call false = search (emitters, Keeps-push_self) depth 8

  module _ (cleans : Cleans) (k : (g : Gathered) → Keeps bt (cleans g)) where
    Keeps-emit_for_abi : (call : SystemCall) (abi : Abi) → Keeps bt (emit_for_abi c cleans call abi)
    unfolding emit_for_abi
    Keeps-emit_for_abi call abi =
        search (emitters, Keeps-emit_direct_system_call, Keeps-call_system_by_engine) depth 8

    Keeps-emit_for_abis : (call : SystemCall) → Keeps bt (emit_for_abis c cleans call)
    unfolding emit_for_abis
    Keeps-emit_for_abis call = search (emitters, Keeps-emit_for_abi) depth 20

  Keeps-emit_nested_system_call :
      (depth : ℕ) (call : SystemCall) → Keeps bt (emit_nested_system_call depth c call)
  unfolding emit_nested_system_call
  Keeps-emit_nested_system_call zero call = search keeps
  Keeps-emit_nested_system_call (suc n) call =
      let fn = c.engine.function call.fn_idx in
      let nested = emit_nested_system_call n c in
      Keeps-emit_for_abis (emit_clean_args nested fn)
        (Keeps-emit_clean_args bt nested (Keeps-emit_nested_system_call n) fn) call

  pub Keeps-emit_system_call : (call : SystemCall) → Keeps bt (emit_system_call c call)
  unfolding emit_system_call
  Keeps-emit_system_call call = Keeps-emit_nested_system_call 2 call

ruleset calls = (emitters, Keeps-emit_direct_script_call_ins, Keeps-emit_system_call)

module _ (bt : List ℕ) (c : Ctx) where
  pub Keeps-emit_alloc : Keeps bt (emit_alloc c)
  unfolding emit_alloc alloc_script_object alloc_registered
  Keeps-emit_alloc = search calls depth 12

  pub Keeps-emit_free : Keeps bt (emit_free c)
  unfolding emit_free free_variable free_object
  Keeps-emit_free = search calls depth 12

  Keeps-swap_references : (type : ObjectType) → Keeps bt (swap_references c type)
  unfolding swap_references
  Keeps-swap_references type = search calls depth 8

  pub Keeps-emit_ref_cpy_v : Keeps bt (emit_ref_cpy_v c)
  unfolding emit_ref_cpy_v
  Keeps-emit_ref_cpy_v = search (emitters, Keeps-swap_references)

  pub Keeps-emit_refcpy : Keeps bt (emit_refcpy c)
  unfolding emit_refcpy
  Keeps-emit_refcpy = search (emitters, Keeps-swap_references) depth 8

  pub Keeps-emit_loadobj : Keeps bt (emit_loadobj c)
  unfolding emit_loadobj
  Keeps-emit_loadobj = search emitters

  pub Keeps-emit_storeobj : Keeps bt (emit_storeobj c)
  unfolding emit_storeobj
  Keeps-emit_storeobj = search emitters
