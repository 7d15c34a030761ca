-- ===== src/Translate/Control.antt =====
-- Calls, returns and jumps: their cases in translate_instruction of
-- src/angelsea/detail/bytecode2c.cpp.
use angelsea.Common.{pos, to_size_t, none, some, [], ◌∷◌, lookup, not, if◌then◌else◌}
use angelsea.Bytecode.VarType.{VarType}
use angelsea.Bytecode.Ins.{cond_expr, target_offset}
use angelsea.Translate.CCode.{BinOp, Expr, Piece, Stmt}
use angelsea.Translate.Engine.{ScriptFunction}
use angelsea.Translate.State.{Ctx, M, ◌>>◌, pure, emit, emit_vm_fallback}
use angelsea.Translate.Emit.{line, emit_cond_branch}
use angelsea.Translate.Calls.{fmt, ScriptCall, emit_direct_script_call_ins}

-- A virtual call looks its function up in the table of the object's type.
unfoldable pub call_virtual : Ctx → ScriptFunction → M (Unit {0})
call_virtual c virtual_fn = do
  line "asCScriptObject* v_obj = sp->as_ptr;"
  fmt (
      Piece.str "asITypeInfo* v_obj_type = *(asITypeInfo**)((char*)v_obj + "
      ∷ Piece.off "asea_offset_scriptobj_objtype"
      ∷ Piece.str ");"
      ∷ [])
  fmt (
      Piece.str "asea_array* v_vftable = (asea_array*)((char*)v_obj_type + "
      ∷ Piece.off "asea_offset_objtype_vtable"
      ∷ Piece.str ");"
      ∷ [])
  fmt (
      Piece.str "asCScriptFunction* v_fn = ((asCScriptFunction**)(v_vftable->ptr))["
      ∷ Piece.nat virtual_fn.vftable_index
      ∷ Piece.str "];"
      ∷ [])
  emit_direct_script_call_ins c (ScriptCall.by_expr virtual_fn (Expr.raw "v_fn"))

unfoldable pub emit_callintf : Ctx → M (Unit {0})
emit_callintf c =
    let virtual_fn = c.engine.function (c.ins.int 0) in
    if virtual_fn.is_interface then emit_vm_fallback c else call_virtual c virtual_fn

-- A return that restores the caller's state from the call stack.
unfoldable pub fast_return : Ctx → M (Unit {0})
fast_return c = do
  fmt (
      Piece.str "asea_array* cs = (asea_array*)((char*)regs->ctx + "
      ∷ Piece.off "asea_offset_ctx_callstack"
      ∷ Piece.str ");"
      ∷ [])
  line "asPWORD* cs_ptr = (asPWORD*)(cs->ptr);"
  fmt (
      Piece.str "if (cs->len == 0 || cs_ptr[cs->len - "
      ∷ Piece.nat c.engine.frame_size
      ∷ Piece.str "] == 0) {"
      ∷ [])
  fmt (
      Piece.str "*(int*)((char*)regs->ctx + "
      ∷ Piece.off "asea_offset_ctx_status"
      ∷ Piece.str ") = asEXECUTION_FINISHED;"
      ∷ [])
  line "regs->value = value_reg;"
  line "return;"
  line "}"
  fmt (Piece.str "asUINT new_len = cs->len - " ∷ Piece.nat c.engine.frame_size ∷ Piece.str ";" ∷ [])
  line "asPWORD* tmp = cs_ptr + new_len;"
  line "regs->fp = (asDWORD*)tmp[0];"
  fmt (
      Piece.str "*(asCScriptFunction**)((char*)regs->ctx + "
      ∷ Piece.off "asea_offset_ctx_currentfn"
      ∷ Piece.str ") = (asCScriptFunction*)tmp[1];"
      ∷ [])
  line "regs->pc = (asDWORD*)tmp[2];"
  fmt (Piece.str "regs->sp = (asDWORD*)tmp[3] + " ∷ Piece.nat c.ins.word0 ∷ Piece.str ";" ∷ [])
  fmt (
      Piece.str "*(asUINT*)((char*)regs->ctx + "
      ∷ Piece.off "asea_offset_ctx_stackindex"
      ∷ Piece.str ") = (asUINT)tmp[4];"
      ∷ [])
  line "cs->len = new_len;"
  line "regs->value = value_reg;"
  line "return;"

unfoldable pub emit_ret : Ctx → M (Unit {0})
emit_ret c =
    let falls_back : M (Unit {0}) = (do line "regs->value = value_reg;"; emit_vm_fallback c) in
    if not c.config.experimental_fast_script_return then falls_back else fast_return c

unfoldable pub emit_jmp : Ctx → M (Unit {0})
emit_jmp c = emit (Stmt.goto_bc (target_offset c.ins))

-- A switch is in the map that discover_switch_map left; the source asserts it.
unfoldable pub emit_jmpp : Ctx → M (Unit {0})
emit_jmpp c = elim (lookup c.ins.offset c.found.switch_map) [
  | none ↦ pure tt
  | some targets ↦ emit (Stmt.switch_goto (Expr.frame_var c.ins.sword0 VarType.s32) targets)
]

unfoldable pub emit_conditional_jump : Ctx → M (Unit {0})
emit_conditional_jump c = elim (cond_expr c.ins.opcode) [
  | none ↦ pure tt
  | some (t, op) ↦
      emit_cond_branch c
        (Expr.binary (BinOp.test op) (Expr.cast t Expr.value_reg) (Expr.number (pos 0)))
        (to_size_t (target_offset c.ins))
]

unfoldable pub emit_suspend : Ctx → M (Unit {0})
emit_suspend c = if c.config.hack_ignore_suspend then pure tt else emit_vm_fallback c
