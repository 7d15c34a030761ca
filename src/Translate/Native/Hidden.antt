-- ===== src/Translate/Native/Hidden.antt =====
-- emit_direct_system_call_native of src/angelsea/detail/bytecode2c.cpp: the object, the pointer to
-- the returned value and their places among the arguments, which depend on the ABI.
use angelsea.Common.{
  Bool, true, false, ◌&&◌, Option, none, some, List, [], ◌∷◌, ◌++◌, ltb, if◌then◌else◌,
}
use angelsea.Translate.CCode.{Piece, CType}
use angelsea.Translate.Engine.{Abi, CallConv, ScriptFunction}
use angelsea.Translate.State.{Ctx, M, ◌>>=◌, pure}
use angelsea.Translate.Calls.{SystemCall}
use angelsea.Translate.Native.Types.{is_complex_passed_by_value, type_pieces}
use angelsea.Translate.Native.Gather.{
  Gathered, gathered_nothing, virtual_stack_pop_expr, push_abi_argument, void_ptr, take_pword,
  add_parameters,
}

abbrev pub is_none {ℓ} : {A : Type ℓ} → Option A → Bool
is_none none = true
is_none (some _) = false

-- `this` is the first on the stack, unless it is given.
unfoldable pub pop_object : Ctx → SystemCall → ScriptFunction → Gathered → List Piece × Gathered
pop_object c call fn g =
    let (e, g') = virtual_stack_pop_expr c void_ptr g in
    if fn.at_least_thiscall && is_none call.object_pointer_override
    then (e, take_pword g')
    else ([], g)

-- The pointer to a returned value: a local ret_ptr for a complex type, else the target of the result.
unfoldable pub pop_return_pointer :
    Ctx → ScriptFunction → CType → Gathered → Option (List Piece) × Gathered
pop_return_pointer c fn return_type g =
    let (e, g') = virtual_stack_pop_expr c void_ptr g in
    let ret_ptr = Piece.str "void* ret_ptr = " ∷ (e ++ (Piece.str ";" ∷ [])) in
    if is_complex_passed_by_value fn.return_data_type
    then (
      none,
      take_pword (record g' { to_emit_before_call = g'.to_emit_before_call ++ (ret_ptr ∷ []) }),
    )
    else if fn.returns_on_stack
    then (some (Piece.str "*(" ∷ (type_pieces return_type ++ (Piece.str "*)" ∷ e))), take_pword g')
    else (none, g)

abbrev pub is_thiscall_objfirst : CallConv → Bool
is_thiscall_objfirst CallConv.thiscall = true
is_thiscall_objfirst CallConv.virtual_thiscall = true
is_thiscall_objfirst _ = false

abbrev pub is_cdecl_objfirst : CallConv → Bool
is_cdecl_objfirst CallConv.cdecl_objfirst = true
is_cdecl_objfirst _ = false

abbrev pub is_cdecl_objlast : CallConv → Bool
is_cdecl_objlast CallConv.cdecl_objlast = true
is_cdecl_objlast _ = false

-- A pointer argument, where there is one.
unfoldable pub push_pointer_if : Bool → List Piece → Gathered → Gathered
push_pointer_if b expr g = if b then push_abi_argument void_ptr expr g else g

abbrev pub obj : List Piece
obj = Piece.str "obj" ∷ []

abbrev pub ret_ptr : List Piece
ret_ptr = Piece.str "ret_ptr" ∷ []

-- The order of the return pointer and the object; none where the ABI has none.
unfoldable pub push_hidden : Abi → Bool → Bool → Gathered → Option Gathered
push_hidden Abi.linux_gcc_x86_64 complex method g =
    some (push_pointer_if method obj (push_pointer_if complex ret_ptr g))
push_hidden Abi.windows_mingw_x86_64 complex method g =
    some (push_pointer_if method obj (push_pointer_if complex ret_ptr g))
push_hidden Abi.windows_msvc_x86_64 complex method g =
    some (push_pointer_if complex ret_ptr (push_pointer_if method obj g))
push_hidden _ complex method g = if complex then none else some (push_pointer_if method obj g)

abbrev pub is_macos_aarch64 : Abi → Bool
is_macos_aarch64 Abi.macos_aarch64 = true
is_macos_aarch64 _ = false

-- The parameters have been gathered; the object may be the last argument. On this ABI a call that
-- may pass arguments on the stack is refused.
unfoldable pub finish_arguments : ScriptFunction → Abi → Gathered → Option Gathered
finish_arguments fn abi g =
    let g' = push_pointer_if (is_cdecl_objlast fn.call_conv) obj g in
    if is_macos_aarch64 abi && ltb 8 g'.max_regs_used then none else some g'

unfoldable pub finish_gathering : ScriptFunction → Abi → Option Gathered → Option Gathered
finish_gathering fn abi none = none
finish_gathering fn abi (some g) = finish_arguments fn abi g

unfoldable pub gather_parameters :
    Ctx → ScriptFunction → Abi → Option Gathered → M (Option Gathered)
gather_parameters c fn abi none = pure none
gather_parameters c fn abi (some g) = do
  r ← add_parameters c fn.parameter_types (push_pointer_if (is_cdecl_objfirst fn.call_conv) obj g)
  pure (finish_gathering fn abi r)

-- The state once the object and the return pointer have been taken from the stack.
abbrev pub popped : Ctx → SystemCall → ScriptFunction → CType → Gathered
popped c call fn return_type =
    (pop_return_pointer c fn return_type (pop_object c call fn (gathered_nothing c)).1).1

unfoldable pub gather : Ctx → SystemCall → ScriptFunction → Abi → CType → M (Option Gathered)
gather c call fn abi return_type = gather_parameters c fn abi (
    push_hidden abi (is_complex_passed_by_value fn.return_data_type)
      (is_thiscall_objfirst fn.call_conv) (popped c call fn return_type))

-- The expressions of the object and of the target of the result.
abbrev pub obj_expr : Ctx → SystemCall → ScriptFunction → List Piece
obj_expr c call fn = (pop_object c call fn (gathered_nothing c)).0

abbrev pub return_target : Ctx → SystemCall → ScriptFunction → CType → Option (List Piece)
return_target c call fn return_type =
    (pop_return_pointer c fn return_type (pop_object c call fn (gathered_nothing c)).1).0
