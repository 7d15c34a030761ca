-- ===== src/Translate/Objects.antt =====
-- The instructions on objects and handles: their cases in translate_instruction of
-- src/angelsea/detail/bytecode2c.cpp.
use angelsea.Common.{
  ℕ, ◌+◌, ◌-◌, ◌%◌, ℤ, pos, Bool, true, false, not, String, some, [], ◌∷◌, ◌==◌, if◌then◌else◌,
}
use angelsea.Bytecode.VarType.{VarType}
use angelsea.Translate.CCode.{Expr, Piece}
use angelsea.Translate.Engine.{ObjectType}
use angelsea.Translate.State.{Ctx, M, ◌>>=◌, ◌>>◌, when, emit_vm_fallback}
use angelsea.Translate.Emit.{line, emit_type_info_lookup}
use angelsea.Translate.Calls.{fmt, SystemCall, ScriptCall, emit_direct_script_call_ins}
use angelsea.Translate.SystemCalls.{emit_system_call}

-- A behaviour of the type, called on an object by the virtual machine's own right.
abbrev pub behaviour : ℕ → String → SystemCall
behaviour fn object = record {
  fn_idx = pos fn;
  object_pointer_override = some (Expr.raw object);
  is_internal_call = true;
}

-- The size of a type, rounded up to a multiple of 4 bytes.
unfoldable pub aligned_size : ℕ → ℕ
aligned_size size = if size % 4 == 0 then size else size + (4 - size % 4)

-- A new script object, which goes to the slot below the arguments, and the constructor's call.
unfoldable pub alloc_script_object : Ctx → ℤ → M (Unit {0})
alloc_script_object c fn_idx = do
  symbol ← emit_type_info_lookup
  fmt (
      Piece.str "void* new_obj = asea_new_script_object((asCObjectType*)&"
      ∷ Piece.sym symbol
      ∷ Piece.str ");"
      ∷ [])
  fmt (
      Piece.str "void **a = (void**)((asea_var*)((asDWORD*)sp + "
      ∷ Piece.nat (c.engine.function fn_idx).argument_space
      ∷ Piece.str "))->as_ptr;"
      ∷ [])
  line "if (a) { *a = new_obj; }"
  line "sp = (asea_var*)((char*)sp - sizeof(void*));"
  line "sp->as_ptr = new_obj;"
  emit_direct_script_call_ins c (ScriptCall.by_idx fn_idx)

abbrev is_zeroℤ : ℤ → Bool
is_zeroℤ (pos n) = n == 0
is_zeroℤ _ = false

unfoldable pub alloc_registered : Ctx → ℕ → ℤ → M (Unit {0})
alloc_registered c size fn_idx = do
  fmt (Piece.str "asDWORD* mem = asea_alloc(" ∷ Piece.nat (aligned_size size) ∷ Piece.str ");" ∷ [])
  when (not (is_zeroℤ fn_idx)) (
      emit_system_call c (record {
        fn_idx = fn_idx;
        object_pointer_override = some (Expr.raw "mem");
        is_internal_call = false;
      }))
  line "asDWORD** a = (asDWORD**)(sp->as_ptr);"
  line "sp = (asea_var*)((char*)sp + sizeof(asPWORD));"
  line "if (a) *a = mem;"

-- The constructor's index stands behind the type's address, which takes two dwords.
unfoldable pub emit_alloc : Ctx → M (Unit {0})
emit_alloc c =
    let type = c.engine.object_type c.ins.pword0 in
    if type.is_script_object
    then alloc_script_object c (c.ins.int 2)
    else alloc_registered c type.size (c.ins.int 2)

-- The release of a handle, or the destruction and the freeing of a value.
unfoldable pub free_object : Ctx → ObjectType → M (Unit {0})
free_object c type =
    let destroys : M (Unit {0}) = (do
      when (not (type.destruct == 0)) (emit_system_call c (behaviour type.destruct "(void*)v"))
      line "asea_free((void*)v);") in
    if type.is_ref
    then when (not (type.release == 0)) (emit_system_call c (behaviour type.release "(void*)v"))
    else destroys

unfoldable pub free_variable : Ctx → ObjectType → M (Unit {0})
free_variable c type = do
  fmt (
      Piece.str "asPWORD *a = &"
      ∷ Piece.ex (Expr.frame_var c.ins.sword0 VarType.pword)
      ∷ Piece.str ", v = *a;"
      ∷ [])
  line "if (v) {"
  free_object c type
  line "*a = 0;"
  line "}"

unfoldable pub emit_free : Ctx → M (Unit {0})
emit_free c =
    let type = c.engine.object_type c.ins.pword0 in
    if type.is_list_pattern then emit_vm_fallback c else free_variable c type

-- The old handle is released, then the new one referenced.
unfoldable pub swap_references : Ctx → ObjectType → M (Unit {0})
swap_references c type = do
  when (not (type.release == 0)) (do
    line "if (*dst != 0) {"
    emit_system_call c (behaviour type.release "(void*)*dst")
    line "}")
  when (not (type.addref == 0))
      (do line "if (src != 0) {"; emit_system_call c (behaviour type.addref "(void*)src"); line "}")

unfoldable pub emit_ref_cpy_v : Ctx → M (Unit {0})
emit_ref_cpy_v c = do
  line "asPWORD src = sp->as_asPWORD;"
  fmt (
      Piece.str "asPWORD* dst = &"
      ∷ Piece.ex (Expr.frame_var c.ins.sword0 VarType.pword)
      ∷ Piece.str ";"
      ∷ [])
  when (not (c.engine.object_type c.ins.pword0).is_nocount_or_value)
      (swap_references c (c.engine.object_type c.ins.pword0))
  line "*dst = src;"

unfoldable pub emit_refcpy : Ctx → M (Unit {0})
emit_refcpy c = do
  line "asPWORD *dst = (asPWORD*)sp->as_asPWORD;"
  line "sp = (asea_var*)((char*)sp + sizeof(asPWORD));"
  line "asPWORD src = sp->as_asPWORD;"
  when (not (c.engine.object_type c.ins.pword0).is_nocount_or_value)
      (swap_references c (c.engine.object_type c.ins.pword0))
  line "*dst = src;"

unfoldable pub emit_loadobj : Ctx → M (Unit {0})
emit_loadobj c = do
  fmt (
      Piece.str "void **a = &"
      ∷ Piece.ex (Expr.frame_ptr c.ins.sword0)
      ∷ Piece.str "->as_ptr;"
      ∷ [])
  line "regs->obj_type = 0;"
  line "regs->obj = *a;"
  line "*a = 0;"

unfoldable pub emit_storeobj : Ctx → M (Unit {0})
emit_storeobj c = do
  fmt (Piece.ex (Expr.frame_ptr c.ins.sword0) ∷ Piece.str "->as_ptr = regs->obj;" ∷ [])
  line "regs->obj = 0;"
