-- ===== src/Translate/Native/Emit.antt =====
-- The second half of emit_direct_system_call_native of src/angelsea/detail/bytecode2c.cpp: the code
-- of the call, once its arguments have been gathered.
use angelsea.Common.{
  ℤ, pos, ltbℤ, Bool, true, false, ◌&&◌, ◌||◌, not, String, Option, none, some, List, [], ◌∷◌, ◌++◌,
  map, if◌then◌else◌,
}
use angelsea.Bytecode.VarType.{VarType}
use angelsea.Translate.CCode.{Handler, Symbol, Expr, Piece, CType, Forward}
use angelsea.Translate.Engine.{Abi, CallConv, DataType, ScriptFunction}
use angelsea.Translate.State.{Ctx, M, ◌>>◌, pure, when, fail_when, emit_forward_declaration}
use angelsea.Translate.Emit.{line}
use angelsea.Translate.Calls.{fmt, SystemCall}
use angelsea.Translate.Native.Types.{type_pieces}
use angelsea.Translate.Native.Gather.{Arg}
use angelsea.Translate.Native.Hidden.{obj_expr}

unfoldable pub emit_all : List (List Piece) → M (Unit {0})
emit_all [] = pure tt
emit_all (x ∷ rest) = do fmt x; emit_all rest

unfoldable pub emit_object : Ctx → SystemCall → ScriptFunction → M (Unit {0})
emit_object c call fn = elim call.object_pointer_override [
  | some object ↦
      when fn.at_least_thiscall
        (fmt (Piece.str "void *obj = " ∷ Piece.ex object ∷ Piece.str ";" ∷ []))
  | none ↦ when fn.at_least_thiscall (do
    fmt (Piece.str "void *obj = " ∷ (obj_expr c call fn ++ (Piece.str ";" ∷ [])))
    fail_when c (Expr.raw "obj == 0") Handler.err_null)
]

-- The adjustment of the object by the ABI; false where it has none.
unfoldable pub adjust_object : ℤ → Abi → M Bool
adjust_object offset Abi.generic = pure false
adjust_object offset Abi.linux_gcc_aarch64 = do
  fmt (Piece.str "obj = (char*)obj + (" ∷ Piece.int offset ∷ Piece.str " >> 1);" ∷ [])
  pure true
adjust_object offset Abi.macos_aarch64 = do
  fmt (Piece.str "obj = (char*)obj + (" ∷ Piece.int offset ∷ Piece.str " >> 1);" ∷ [])
  pure true
adjust_object offset _ = do
  fmt (Piece.str "obj = (char*)obj + " ∷ Piece.int offset ∷ Piece.str ";" ∷ [])
  pure true

unfoldable pub emit_base_offset : ScriptFunction → Abi → M Bool
emit_base_offset fn abi =
    if ltbℤ (pos 0) fn.base_offset then adjust_object fn.base_offset abi else pure true

-- fmt::join.
abbrev pub join_more : String → List (List Piece) → List Piece
join_more separator [] = []
join_more separator (x ∷ rest) = Piece.str separator ∷ (x ++ join_more separator rest)

abbrev pub join : String → List (List Piece) → List Piece
join separator [] = []
join separator (x ∷ rest) = x ++ join_more separator rest

abbrev arg_type : Arg → CType
arg_type a = a.type

abbrev arg_type_pieces : Arg → List Piece
arg_type_pieces a = type_pieces a.type

-- The function is found in the object's table, by the ABI; none where it has none.
unfoldable pub load_virtual : ℤ → Abi → M (Option (List Piece))
load_virtual fn_idx Abi.generic = pure none
load_virtual fn_idx Abi.windows_msvc_x86_64 = do
  line "virtfn* vftable = *(virtfn**)obj;"
  fmt (
      Piece.str "virtfn fn = vftable[(asPWORD)&"
      ∷ Piece.sym (Symbol.sys_fn_ptr_symbol fn_idx)
      ∷ Piece.str " >> 2];"
      ∷ [])
  pure (some (Piece.str "fn" ∷ []))
load_virtual fn_idx _ = do
  line "virtfn* vftable = *(virtfn**)obj;"
  fmt (
      Piece.str "virtfn fn = vftable[(asPWORD)&"
      ∷ Piece.sym (Symbol.sys_fn_ptr_symbol fn_idx)
      ∷ Piece.str " / sizeof(void*)];"
      ∷ [])
  pure (some (Piece.str "fn" ∷ []))

abbrev is_virtual : CallConv → Bool
is_virtual CallConv.virtual_thiscall = true
is_virtual _ = false

-- The name by which the function is called.
unfoldable pub declare_callable :
    ℤ → ScriptFunction → Abi → CType → List Arg → M (Option (List Piece))
declare_callable fn_idx fn abi return_type args =
    let symbol = Symbol.sys_fn_ptr_symbol fn_idx in
    let by_table : M (Option (List Piece)) = (do
      emit_forward_declaration symbol (Forward.extern_bytes symbol)
      fmt (
          Piece.str "typedef "
          ∷ (type_pieces return_type
              ++ (Piece.str " (*virtfn)("
                  ∷ (join "," (map arg_type_pieces args) ++ (Piece.str ");" ∷ [])))))
      load_virtual fn_idx abi) in
    let by_name : M (Option (List Piece)) = (do
      emit_forward_declaration symbol
          (Forward.extern_function symbol return_type (map arg_type args))
      pure (some (Piece.sym symbol ∷ []))) in
    if is_virtual fn.call_conv then by_table else by_name

abbrev pub arg_line : Arg → List Piece
arg_line a = Piece.str "\n\t\t\t" ∷ a.expr

abbrev pub call_expression : List Piece → List Arg → List Piece
call_expression name args =
    name ++ (Piece.str "(" ∷ (join "," (map arg_line args) ++ (Piece.str ")" ∷ [])))

abbrev pub is_void_ptr : CType → Bool
is_void_ptr (CType.basic VarType.void_ptr) = true
is_void_ptr _ = false

abbrev pub is_void : CType → Bool
is_void CType.c_void = true
is_void _ = false

unfoldable pub store_union : CType → List Piece → M (Unit {0})
store_union return_type call = do
  line "asea_var ret_conv;"
  fmt (
      Piece.str "ret_conv.as_"
      ∷ (type_pieces return_type ++ (Piece.str " = " ∷ (call ++ (Piece.str ";" ∷ [])))))
  line "value_reg = ret_conv.as_asQWORD;"

-- The call with its result, where that is not behind a pointer on the stack.
unfoldable pub store_result : DataType → CType → List Piece → M (Unit {0})
store_result type return_type call =
    let plain = fmt (call ++ (Piece.str ";" ∷ [])) in
    let pointer = fmt (Piece.str "value_reg = (asPWORD)" ∷ (call ++ (Piece.str ";" ∷ []))) in
    if type.is_object_handle && not type.is_reference
    then fmt (Piece.str "regs->obj = " ∷ (call ++ (Piece.str ";" ∷ [])))
    else if (type.is_object || type.is_funcdef) && not type.is_reference
    then (if is_void_ptr return_type then pointer else plain)
    else if is_void return_type
    then plain
    else if is_void_ptr return_type
    then pointer
    else if type.is_integer_like
    then fmt (Piece.str "value_reg = " ∷ (call ++ (Piece.str ";" ∷ [])))
    else store_union return_type call

unfoldable pub emit_call : ScriptFunction → CType → Option (List Piece) → List Piece → M (Unit {0})
emit_call fn return_type (some target) call =
    fmt (target ++ (Piece.str " = " ∷ (call ++ (Piece.str ";" ∷ []))))
emit_call fn return_type none call = store_result fn.return_data_type return_type call
