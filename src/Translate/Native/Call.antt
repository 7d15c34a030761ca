-- ===== src/Translate/Native/Call.antt =====
-- emit_direct_system_call_native of src/angelsea/detail/bytecode2c.cpp as a whole, with the cleaning
-- of the arguments behind the call.
use mathlib.Core.List.{reverse}
use angelsea.Common.{
  ℕ, suc, ◌+◌, ℤ, pos, ltbℤ, Bool, true, false, ◌&&◌, ◌||◌, not, Option, none, some, List, [], ◌∷◌,
  ◌++◌, ◌==◌, if◌then◌else◌, lookup, get_elem?,
}
use angelsea.Translate.CCode.{Expr, Piece, CType}
use angelsea.Translate.Engine.{Abi, CallConv, SClean, ScriptFunction}
use angelsea.Translate.State.{Ctx, M, ◌>>=◌, ◌>>◌, pure, when}
use angelsea.Translate.Emit.{line, flush_pushes}
use angelsea.Translate.Calls.{fmt, SystemCall, save_context}
use angelsea.Translate.Native.Types.{is_complex_passed_by_value, get_var_type}
use angelsea.Translate.Native.Gather.{Gathered, Arg, dword_offset, pword_offset}
use angelsea.Translate.Native.Hidden.{gather, return_target}
use angelsea.Translate.Native.Emit.{
  emit_all, emit_object, emit_base_offset, declare_callable, call_expression, emit_call,
}

-- The call of a behaviour on the argument.
abbrev pub clean_call : ℤ → SystemCall
clean_call fn_idx = record {
  fn_idx = fn_idx;
  object_pointer_override = some (Expr.raw "clean");
  is_internal_call = true;
}

-- A handle is released, if there is one; `nested` emits the system calls.
unfoldable pub clean_by_release : (SystemCall → M (Unit {0})) → ℕ → SClean → M (Unit {0})
clean_by_release nested i x = do
  line "if (clean) {"
  nested (clean_call x.release)
  fmt (Piece.str "clean" ∷ Piece.nat i ∷ Piece.str " = 0;" ∷ [])
  line "}"

-- Other values are freed, after the destructor where op is 2.
unfoldable pub clean_by_free : (SystemCall → M (Unit {0})) → SClean → M (Unit {0})
clean_by_free nested x = do
  when (x.op == 2) (nested (clean_call x.destruct))
  line "asea_free(clean);"
  line "}"

-- The i-th argument to clean.
unfoldable pub emit_clean_arg : (SystemCall → M (Unit {0})) → ℕ → SClean → List Piece → M (Unit {0})
emit_clean_arg nested i x expr = do
  line "{"
  fmt (Piece.str "void* clean = " ∷ (expr ++ (Piece.str ";" ∷ [])))
  if x.op == 0 then clean_by_release nested i x else clean_by_free nested x

abbrev expr_of : Option Arg → List Piece
expr_of none = []
expr_of (some a) = a.expr

-- The argument at a stack offset. Where there is none the source fails (`at`): the model goes on.
unfoldable pub argument_at : ℕ → Gathered → List Piece
argument_at off g = elim (lookup off g.stack_offset_to_arg_id) [
  | none ↦ []
  | some id ↦ expr_of (get_elem? g.args id)
]

unfoldable pub clean_base_offset : ScriptFunction → ℕ
clean_base_offset fn =
    (if fn.returns_on_stack then 2 else 0)
    + (if fn.at_least_thiscall && not fn.has_auxiliary then 2 else 0)

unfoldable pub emit_clean_args_from :
    (SystemCall → M (Unit {0})) → ScriptFunction → Gathered → ℕ → List SClean → M (Unit {0})
emit_clean_args_from nested fn g i [] = pure tt
emit_clean_args_from nested fn g i (x ∷ rest) = do
  emit_clean_arg nested i x (argument_at (x.off + clean_base_offset fn) g)
  emit_clean_args_from nested fn g (suc i) rest

unfoldable pub emit_clean_args :
    (SystemCall → M (Unit {0})) → ScriptFunction → Gathered → M (Unit {0})
emit_clean_args nested fn g = emit_clean_args_from nested fn g 0 fn.clean_args

-- The arguments that stand on the stack are popped.
unfoldable pub pop_arguments : SystemCall → Gathered → M (Unit {0})
pop_arguments call g =
    when
      (not call.is_internal_call
        && (ltbℤ (pos 0) (dword_offset g.stack) || ltbℤ (pos 0) (pword_offset g.stack)))
      (fmt (
        Piece.str "sp = (asea_var*)((asDWORD*)sp + "
        ∷ Piece.int (dword_offset g.stack)
        ∷ Piece.str " + "
        ∷ Piece.int (pword_offset g.stack)
        ∷ Piece.str " * (sizeof(asPWORD) / 4));"
        ∷ []))

unfoldable pub finish_call :
    (Gathered → M (Unit {0}))
    → Ctx
    → SystemCall
    → ScriptFunction
    → CType
    → Gathered
    → Option (List Piece)
    → M Bool
finish_call cleans c call fn return_type g none = pure false
finish_call cleans c call fn return_type g (some name) = do
  emit_call fn return_type (return_target c call fn return_type) (call_expression name g.args)
  emit_all g.to_emit_after_call
  cleans g
  pop_arguments call g
  pure true

unfoldable pub call_adjusted :
    (Gathered → M (Unit {0}))
    → Ctx
    → SystemCall
    → ScriptFunction
    → Abi
    → CType
    → Gathered
    → Bool
    → M Bool
call_adjusted cleans c call fn abi return_type g false = pure false
call_adjusted cleans c call fn abi return_type g true = do
  save_context c
  name ← declare_callable call.fn_idx fn abi return_type g.args
  finish_call cleans c call fn return_type g name

-- The code of the call; the pushes that were not arguments go back to the stack.
unfoldable pub emit_native_call :
    (Gathered → M (Unit {0}))
    → Ctx
    → SystemCall
    → ScriptFunction
    → Abi
    → CType
    → Option Gathered
    → M Bool
emit_native_call cleans c call fn abi return_type none = pure false
emit_native_call cleans c call fn abi return_type (some g) = do
  emit_all g.to_emit_before_call
  flush_pushes c (reverse g.pending)
  emit_object c call fn
  adjusted ← emit_base_offset fn abi
  call_adjusted cleans c call fn abi return_type g adjusted

abbrev any : List Bool → Bool
any [] = false
any (b ∷ l) = b || any l

-- What is refused from the start.
unfoldable pub refuses : Ctx → ScriptFunction → Bool
refuses c fn =
    not c.config.experimental_direct_native_call
    || fn.is_composite_indirect
    || (fn.has_auxiliary || fn.at_least_thiscall_objlast)
    || (fn.return_data_type.is_funcdef && not fn.return_data_type.is_reference)
    || any fn.param_auto_handles
    || fn.return_auto_handle

abbrev pub is_supported : CallConv → Bool
is_supported CallConv.cdecl = true
is_supported CallConv.cdecl_objfirst = true
is_supported CallConv.cdecl_objlast = true
is_supported CallConv.virtual_thiscall = true
is_supported CallConv.thiscall = true
is_supported _ = false

unfoldable pub call_returning :
    (Gathered → M (Unit {0})) → Ctx → SystemCall → ScriptFunction → Abi → CType → M Bool
call_returning cleans c call fn abi CType.unsupported = pure false
call_returning cleans c call fn abi return_type =
    let attempt : M Bool = (do
      r ← gather c call fn abi return_type
      emit_native_call cleans c call fn abi return_type r) in
    if is_supported fn.call_conv then attempt else pure false

-- A complex value is returned by a pointer.
unfoldable pub return_c_type : ScriptFunction → M CType
return_c_type fn =
    if is_complex_passed_by_value fn.return_data_type
    then pure CType.c_void
    else get_var_type fn.return_data_type

-- `cleans` emits the code that cleans the arguments.
unfoldable pub emit_direct_system_call_native :
    Ctx → (Gathered → M (Unit {0})) → SystemCall → ScriptFunction → Abi → M Bool
emit_direct_system_call_native c cleans call fn abi =
    let attempt : M Bool = (do
      return_type ← return_c_type fn
      call_returning cleans c call fn abi return_type) in
    if refuses c fn then pure false else attempt
