-- ===== src/Translate/Safe/Native.antt =====
-- Native system calls keep every jump safe.
use angelsea.Common.{
  ℕ, suc, ℤ, Bool, true, false, Option, none, some, List, [], ◌∷◌, inl, inr, Option-cases,
}
use angelsea.Translate.CCode.{Piece, CType}
use angelsea.Translate.Engine.{Abi, DataType, TypeInfo, SClean, ScriptFunction}
use angelsea.Translate.State.{Ctx, M}
use angelsea.Translate.Calls.{SystemCall, save_context}
use angelsea.Translate.Native.Types.{
  declare_struct, declare_for, emit_dummy_struct_declaration, get_var_type,
}
use angelsea.Translate.Native.Gather.{Gathered, Arg, add_parameter, add_parameters, continue_with}
use angelsea.Translate.Native.Hidden.{gather, gather_parameters}
use angelsea.Translate.Native.Emit.{
  emit_all, emit_object, adjust_object, emit_base_offset, load_virtual, declare_callable,
  store_union, store_result, emit_call,
}
use angelsea.Translate.Native.Call.{
  clean_by_release, clean_by_free, emit_clean_arg, emit_clean_args_from, emit_clean_args,
  pop_arguments, finish_call, call_adjusted, emit_native_call, call_returning, return_c_type,
  emit_direct_system_call_native,
}
use angelsea.Translate.Safe.Rules.{Keeps, Keeps-then, Keeps-bind, keeps}
use angelsea.Translate.Safe.Emitters.{emitters, Keeps-flush_pushes}

module _ (bt : List ℕ) where
  Keeps-declare_struct : (info : TypeInfo) (n : ℕ) → Keeps bt (declare_struct info n)
  unfolding declare_struct
  Keeps-declare_struct info n = search keeps

  Keeps-declare_for : (type : DataType) (o : Option TypeInfo) → Keeps bt (declare_for type o)
  unfolding declare_for
  Keeps-declare_for type none = search keeps
  Keeps-declare_for type (some info) = search (keeps, Keeps-declare_struct)

  Keeps-get_var_type : (type : DataType) → Keeps bt (get_var_type type)
  unfolding get_var_type emit_dummy_struct_declaration
  Keeps-get_var_type type = search (keeps, Keeps-declare_for) depth 12

  Keeps-return_c_type : (fn : ScriptFunction) → Keeps bt (return_c_type fn)
  unfolding return_c_type
  Keeps-return_c_type fn = search (keeps, Keeps-get_var_type)

  Keeps-add_parameter :
      (c : Ctx) (param : DataType) (g : Gathered) → Keeps bt (add_parameter c param g)
  unfolding add_parameter
  Keeps-add_parameter c param g = search (keeps, Keeps-get_var_type) depth 12

  Keeps-continue_with :
      (f : Gathered → M (Option Gathered)) (o : Option Gathered)
      → ((g : Gathered) → Keeps bt (f g))
      → Keeps bt (continue_with f o)
  unfolding continue_with
  Keeps-continue_with f none k = search keeps
  Keeps-continue_with f (some g) k = k g

  Keeps-add_parameters :
      (c : Ctx) (l : List DataType) (g : Gathered) → Keeps bt (add_parameters c l g)
  unfolding add_parameters
  Keeps-add_parameters c [] g = search keeps
  Keeps-add_parameters c (param ∷ rest) g =
      Keeps-bind bt (add_parameter c param g) _ (Keeps-add_parameter c param g)
        (λ r. Keeps-continue_with _ r (Keeps-add_parameters c rest))

  Keeps-gather_parameters :
      (c : Ctx) (fn : ScriptFunction) (abi : Abi) (o : Option Gathered)
      → Keeps bt (gather_parameters c fn abi o)
  unfolding gather_parameters
  Keeps-gather_parameters c fn abi none = search keeps
  Keeps-gather_parameters c fn abi (some g) = search (keeps, Keeps-add_parameters)

  Keeps-emit_all : (l : List (List Piece)) → Keeps bt (emit_all l)
  unfolding emit_all
  Keeps-emit_all [] = search keeps
  Keeps-emit_all (x ∷ rest) = Keeps-then bt _ _ (search emitters) (Keeps-emit_all rest)

  Keeps-emit_object :
      (c : Ctx) (call : SystemCall) (fn : ScriptFunction) → Keeps bt (emit_object c call fn)
  unfolding emit_object
  Keeps-emit_object c call fn = elim (Option-cases call.object_pointer_override) [
    | inl e ↦ rw (e, emit_object) (search emitters)
    | inr (x, e) ↦ rw (e, emit_object) (search emitters)
  ]

  Keeps-adjust_object : (z : ℤ) (abi : Abi) → Keeps bt (adjust_object z abi)
  unfolding adjust_object
  Keeps-adjust_object z Abi.generic = search emitters
  Keeps-adjust_object z Abi.linux_gcc_aarch64 = search emitters
  Keeps-adjust_object z Abi.macos_aarch64 = search emitters
  Keeps-adjust_object z _ = search emitters

  Keeps-emit_base_offset : (fn : ScriptFunction) (abi : Abi) → Keeps bt (emit_base_offset fn abi)
  unfolding emit_base_offset
  Keeps-emit_base_offset fn abi = search (keeps, Keeps-adjust_object)

  Keeps-load_virtual : (n : ℤ) (abi : Abi) → Keeps bt (load_virtual n abi)
  unfolding load_virtual
  Keeps-load_virtual n Abi.generic = search emitters
  Keeps-load_virtual n Abi.windows_msvc_x86_64 = search emitters
  Keeps-load_virtual n _ = search emitters

  Keeps-declare_callable :
      (n : ℤ) (fn : ScriptFunction) (abi : Abi) (t : CType) (args : List Arg)
      → Keeps bt (declare_callable n fn abi t args)
  unfolding declare_callable
  Keeps-declare_callable n fn abi t args = search (emitters, Keeps-load_virtual) depth 8

  Keeps-store_union : (t : CType) (ps : List Piece) → Keeps bt (store_union t ps)
  unfolding store_union
  Keeps-store_union t ps = search emitters

  Keeps-store_result :
      (type : DataType) (t : CType) (ps : List Piece) → Keeps bt (store_result type t ps)
  unfolding store_result
  Keeps-store_result type t ps = search (emitters, Keeps-store_union) depth 12

  Keeps-emit_call :
      (fn : ScriptFunction) (t : CType) (o : Option (List Piece)) (ps : List Piece)
      → Keeps bt (emit_call fn t o ps)
  unfolding emit_call
  Keeps-emit_call fn t none ps = Keeps-store_result fn.return_data_type t ps
  Keeps-emit_call fn t (some target) ps = search emitters

  Keeps-pop_arguments : (call : SystemCall) (g : Gathered) → Keeps bt (pop_arguments call g)
  unfolding pop_arguments
  Keeps-pop_arguments call g = search emitters

  Keeps-save_context : (c : Ctx) → Keeps bt (save_context c)
  unfolding save_context
  Keeps-save_context c = search emitters

  -- The code that cleans the arguments, with system calls that keep every jump safe.
  module _ (nested : SystemCall → M (Unit {0}))
      (k : (call : SystemCall) → Keeps bt (nested call)) where
    Keeps-clean_by_release : (i : ℕ) (x : SClean) → Keeps bt (clean_by_release nested i x)
    unfolding clean_by_release
    Keeps-clean_by_release i x = search (emitters, k)

    Keeps-clean_by_free : (x : SClean) → Keeps bt (clean_by_free nested x)
    unfolding clean_by_free
    Keeps-clean_by_free x = search (emitters, k)

    Keeps-emit_clean_arg :
        (i : ℕ) (x : SClean) (e : List Piece) → Keeps bt (emit_clean_arg nested i x e)
    unfolding emit_clean_arg
    Keeps-emit_clean_arg i x e = search (emitters, Keeps-clean_by_release, Keeps-clean_by_free)

    Keeps-emit_clean_args_from :
        (fn : ScriptFunction) (g : Gathered) (i : ℕ) (l : List SClean)
        → Keeps bt (emit_clean_args_from nested fn g i l)
    unfolding emit_clean_args_from
    Keeps-emit_clean_args_from fn g i [] = search keeps
    Keeps-emit_clean_args_from fn g i (x ∷ rest) =
        Keeps-then bt _ _ (search Keeps-emit_clean_arg)
          (Keeps-emit_clean_args_from fn g (suc i) rest)

    pub Keeps-emit_clean_args :
        (fn : ScriptFunction) (g : Gathered) → Keeps bt (emit_clean_args nested fn g)
    unfolding emit_clean_args
    Keeps-emit_clean_args fn g = Keeps-emit_clean_args_from fn g 0 fn.clean_args

  module _ (cleans : Gathered → M (Unit {0})) (k : (g : Gathered) → Keeps bt (cleans g))
      (c : Ctx) where
    Keeps-finish_call :
        (call : SystemCall) (fn : ScriptFunction) (t : CType) (g : Gathered)
        (o : Option (List Piece))
        → Keeps bt (finish_call cleans c call fn t g o)
    unfolding finish_call
    Keeps-finish_call call fn t g none = search keeps
    Keeps-finish_call call fn t g (some name) =
        search (keeps, k, Keeps-emit_call, Keeps-emit_all, Keeps-pop_arguments) depth 8

    Keeps-call_adjusted :
        (call : SystemCall) (fn : ScriptFunction) (abi : Abi) (t : CType) (g : Gathered) (b : Bool)
        → Keeps bt (call_adjusted cleans c call fn abi t g b)
    unfolding call_adjusted
    Keeps-call_adjusted call fn abi t g false = search keeps
    Keeps-call_adjusted call fn abi t g true =
        search (keeps, Keeps-save_context, Keeps-declare_callable, Keeps-finish_call) depth 8

    Keeps-emit_native_call :
        (call : SystemCall) (fn : ScriptFunction) (abi : Abi) (t : CType) (o : Option Gathered)
        → Keeps bt (emit_native_call cleans c call fn abi t o)
    unfolding emit_native_call
    Keeps-emit_native_call call fn abi t none = search keeps
    Keeps-emit_native_call call fn abi t (some g) =
        search
          (
            keeps, Keeps-emit_all, Keeps-flush_pushes, Keeps-emit_object, Keeps-emit_base_offset,
            Keeps-call_adjusted,
          )
          depth 8

    Keeps-call_returning :
        (call : SystemCall) (fn : ScriptFunction) (abi : Abi) (t : CType)
        → Keeps bt (call_returning cleans c call fn abi t)
    unfolding call_returning gather
    Keeps-call_returning call fn abi CType.unsupported = search keeps
    Keeps-call_returning call fn abi _ =
        search (keeps, Keeps-gather_parameters, Keeps-emit_native_call)

    pub Keeps-emit_direct_system_call_native :
        (call : SystemCall) (fn : ScriptFunction) (abi : Abi)
        → Keeps bt (emit_direct_system_call_native c cleans call fn abi)
    unfolding emit_direct_system_call_native
    Keeps-emit_direct_system_call_native call fn abi =
        search (keeps, Keeps-return_c_type, Keeps-call_returning)
