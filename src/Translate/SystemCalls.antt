-- ===== src/Translate/SystemCalls.antt =====
-- System calls: emit_system_call, emit_direct_system_call and emit_direct_system_call_generic of
-- src/angelsea/detail/bytecode2c.cpp. A native call cleans its arguments by system calls of its own:
-- the functions take the code of those as an argument, and emit_system_call nests them two deep.
use angelsea.Common.{
  ℕ, zero, suc, ℤ, Bool, true, false, ◌&&◌, ◌||◌, not, ◌++◌, Option, none, some, List, [], ◌∷◌,
  if◌then◌else◌,
}
use angelsea.Translate.CCode.{Handler, Symbol, Expr, Piece}
use angelsea.Translate.Engine.{Abi, CallConv, ScriptFunction}
use angelsea.Translate.State.{Ctx, ExternKind, M, ◌>>=◌, ◌>>◌, pure, when, fail_when, map_extern}
use angelsea.Translate.Emit.{
  line, emit_type_info_lookup, flush_stack_push_optimization, emit_save_sp, emit_save_pc,
}
use angelsea.Translate.Native.Gather.{Gathered}
use angelsea.Translate.Native.Call.{emit_clean_args, emit_direct_system_call_native}
use angelsea.Translate.Calls.{fmt, SystemCall, save_context}

abbrev is_empty {ℓ} : {A : Type ℓ} → List A → Bool
is_empty [] = true
is_empty (_ ∷ _) = false

abbrev is_some {ℓ} : {A : Type ℓ} → Option A → Bool
is_some none = false
is_some (some _) = true

-- The object of a generic method: given, or popped and checked for null.
unfoldable pub load_object : Ctx → Option Expr → M (Unit {0})
load_object c (some object) =
    fmt (Piece.str "g.currentObject = " ∷ Piece.ex object ∷ Piece.str ";" ∷ [])
load_object c none = do
  line "pop_size += sizeof(asPWORD) / 4;"
  line "args += sizeof(asPWORD) / 4;"
  line "g.currentObject = sp->as_ptr;"
  fail_when c (Expr.raw "g.currentObject == 0") Handler.err_null

unfoldable pub store_object : M (Unit {0})
store_object = do
  symbol ← emit_type_info_lookup
  line "regs->obj = g.objectRegister;"
  fmt (Piece.str "regs->obj_type = (asITypeInfo*)" ∷ Piece.sym symbol ∷ Piece.str ";" ∷ [])

unfoldable pub store_generic_result : Ctx → ℤ → ScriptFunction → M (Unit {0})
store_generic_result c fn_idx fn = do
  line "sp = (asea_var*)((asDWORD*)sp + pop_size);"
  (if fn.returns_object then store_object else line "value_reg = g.returnVal;")
  when (not (is_empty fn.clean_args)) (
      fmt (
        Piece.str "asea_clean_args(_regs, &"
        ∷ Piece.sym (Symbol.sys_fn_symbol fn_idx)
        ∷ Piece.str ", args);"
        ∷ []))

abbrev is_generic_method : CallConv → Bool
is_generic_method CallConv.generic_method = true
is_generic_method _ = false

-- The code of a generic call, once it has been accepted.
unfoldable pub generic_call : Ctx → SystemCall → ScriptFunction → M (Unit {0})
generic_call c call fn = do
  save_context c
  flush_stack_push_optimization c
  line "asDWORD* args = &sp->as_asDWORD;"
  fmt (Piece.str "int pop_size = " ∷ Piece.nat fn.param_size ∷ Piece.str ";" ∷ [])
  when (is_generic_method fn.call_conv) (load_object c call.object_pointer_override)
  when (not call.is_internal_call && fn.returns_on_stack)
      (do line "pop_size += sizeof(asPWORD) / 4;"; line "args += sizeof(asPWORD) / 4;")
  when (not call.is_internal_call) (line "g.stackPointer = args;")
  fmt (
      Piece.str "extern void "
      ∷ Piece.sym (Symbol.sys_fn_ptr_symbol call.fn_idx)
      ∷ Piece.str "(asea_generic*);"
      ∷ [])
  fmt (Piece.str "extern void " ∷ Piece.sym (Symbol.sys_fn_symbol call.fn_idx) ∷ Piece.str ";" ∷ [])
  fmt (
      Piece.str "g.sysFunction = &"
      ∷ Piece.sym (Symbol.sys_fn_symbol call.fn_idx)
      ∷ Piece.str ";"
      ∷ [])
  when (not c.config.hack_generic_assume_callee_correctness)
      (do line "g.objectRegister = 0;"; line "g.returnVal = 0;")
  fmt (Piece.sym (Symbol.sys_fn_ptr_symbol call.fn_idx) ∷ Piece.str "(&g);" ∷ [])
  when (not call.is_internal_call) (store_generic_result c call.fn_idx fn)

-- `false` where the call is refused; nothing is emitted then.
unfoldable pub emit_direct_system_call_generic : Ctx → SystemCall → ScriptFunction → M Bool
emit_direct_system_call_generic c call fn =
    let emits : M Bool = (do generic_call c call fn; pure true) in
    if not c.config.experimental_direct_generic_call
    then pure false
    else if not call.is_internal_call
        && (fn.is_variadic || fn.return_auto_handle && c.engine.generic_call_mode_1)
    then pure false
    else emits

-- The code that cleans the arguments of a native call, when they have been gathered.
abbrev pub Cleans : Type 0
Cleans = Gathered → M (Unit {0})

unfoldable pub call_by_convention :
    Ctx → Cleans → SystemCall → Abi → ScriptFunction → CallConv → M Bool
call_by_convention c cleans call abi fn CallConv.generic_func =
    emit_direct_system_call_generic c call fn
call_by_convention c cleans call abi fn CallConv.generic_method =
    emit_direct_system_call_generic c call fn
call_by_convention c cleans call abi fn _ = emit_direct_system_call_native c cleans call fn abi

-- `false` where there is no direct call: the caller then emits the call by the engine.
unfoldable pub emit_direct_system_call : Ctx → Cleans → SystemCall → Abi → M Bool
emit_direct_system_call c cleans call abi =
    let fn = c.engine.function call.fn_idx in
    let attempt : M Bool = (do
      map_extern (Symbol.sys_fn_symbol call.fn_idx) ExternKind.extern_script_fn
      map_extern (Symbol.sys_fn_ptr_symbol call.fn_idx) ExternKind.extern_system_fn
      call_by_convention c cleans call abi fn fn.call_conv) in
    if not c.config.hack_ignore_exceptions
    then pure false
    else if not c.config.hack_ignore_suspend
    then pure false
    else attempt

unfoldable pub push_self : Option Expr → M (Unit {0})
push_self none = pure tt
push_self (some object) = do
  line "sp = (asea_var*)((char*)sp - sizeof(asPWORD));"
  fmt (Piece.str "sp->as_ptr = " ∷ Piece.ex object ∷ Piece.str ";" ∷ [])

abbrev override_pieces : Option Expr → List Piece
override_pieces none = []
override_pieces (some object) = Piece.ex object ∷ []

-- The call by the engine: a script's call goes over the stack, an internal one is a method call.
unfoldable pub call_system_by_engine : Ctx → SystemCall → Bool → M (Unit {0})
call_system_by_engine c call false = do
  flush_stack_push_optimization c
  push_self call.object_pointer_override
  emit_save_sp
  emit_save_pc c true
  fmt (
      Piece.str "sp = (asea_var*)((asDWORD*)sp + asea_call_system_function(_regs, "
      ∷ Piece.int call.fn_idx
      ∷ Piece.str "));"
      ∷ [])
  line "value_reg = regs->value;"
call_system_by_engine c call true = do
  emit_save_sp
  emit_save_pc c true
  fmt (
      Piece.str "asea_call_object_method(_regs, "
      ∷ (override_pieces call.object_pointer_override
          ++ (Piece.str ", " ∷ Piece.int call.fn_idx ∷ Piece.str ");" ∷ [])))

unfoldable pub emit_for_abi : Ctx → Cleans → SystemCall → Abi → M (Unit {0})
emit_for_abi c cleans call abi =
    let attempt : M (Unit {0}) = (do
      done ← emit_direct_system_call c cleans call abi
      when (not done) (call_system_by_engine c call call.is_internal_call)) in
    if not (c.config.abi abi) then line "#error ABI not compiled in" else attempt

unfoldable pub emit_for_abis : Ctx → Cleans → SystemCall → M (Unit {0})
emit_for_abis c cleans call = do
  line "#if defined(__linux__) && (defined(__GNUC__) || defined(__MIRC__)) && defined(__x86_64__)"
  emit_for_abi c cleans call Abi.linux_gcc_x86_64
  line "#elif defined(_WIN32) && (defined(_MSC_VER) || defined(ASEA_ABI_MSVC))"
  emit_for_abi c cleans call Abi.windows_msvc_x86_64
  line "#elif defined(_WIN32) && (defined(__GNUC__) || defined(__MIRC__)) && defined(__x86_64__)"
  emit_for_abi c cleans call Abi.windows_mingw_x86_64
  line "#elif defined(__APPLE__) && defined(__x86_64__)"
  emit_for_abi c cleans call Abi.macos_x86_64
  line
      "#elif defined(__linux__) && (defined(__GNUC__) || defined(__MIRC__)) && defined(__aarch64__)"
  emit_for_abi c cleans call Abi.linux_gcc_aarch64
  line "#elif defined(__APPLE__) && defined(__aarch64__)"
  emit_for_abi c cleans call Abi.macos_aarch64
  line "#else"
  emit_for_abi c cleans call Abi.generic
  line "#endif"

-- System calls with calls that clean arguments, nested `depth` deep.
unfoldable pub emit_nested_system_call : ℕ → Ctx → SystemCall → M (Unit {0})
emit_nested_system_call zero c call = pure tt
emit_nested_system_call (suc depth) c call =
    emit_for_abis c
      (emit_clean_args (emit_nested_system_call depth c) (c.engine.function call.fn_idx)) call

-- A behaviour that cleans an argument has no arguments to clean of its own.
unfoldable pub emit_system_call : Ctx → SystemCall → M (Unit {0})
emit_system_call c call = emit_nested_system_call 2 c call
