-- ===== src/Translate/Switch.antt =====
-- The switch of translate_instruction on the opcode, and translate_instruction itself
-- (src/angelsea/detail/bytecode2c.cpp).
use angelsea.Common.{◌^◌, pos, false, none, some}
use angelsea.Bytecode.Opcode.{Opcode}
use angelsea.Bytecode.VarType.{VarType}
use angelsea.Bytecode.Ins.{Comparison, push_value, compare_operands}
use angelsea.Translate.CCode.{BinOp, UnOp, FloatOp, Expr, Stmt}
use angelsea.Translate.State.{Ctx, M, pure, emit, emit_vm_fallback}
use angelsea.Translate.Emit.{emit_stack_push_ins, emit_assign_ins, emit_compare, emit_test_ins}
use angelsea.Translate.Arithmetic.{
  emit_prefixop_valuereg_ins, emit_unop_var_inplace_ins, emit_binop_var_var_ins,
  emit_binop_var_imm_ins, emit_divmod_var_float_ins, emit_divmod_var_unsigned_ins,
  emit_divmod_var_int_ins, emit_primitive_cast_var_ins,
}
use angelsea.Translate.Calls.{SystemCall, ScriptCall, emit_direct_script_call_ins}
use angelsea.Translate.SystemCalls.{emit_system_call}
use angelsea.Translate.Memory.{
  emit_pop_r_ptr, emit_pop_ptr, emit_rds_ptr, emit_chkref, emit_chk_null_v, emit_chk_null_s,
  emit_copy, emit_cpy_v_to_g4, emit_cpy_g_to_v4, emit_ldv, emit_set_g4, emit_ldg, emit_getobj,
  emit_getobjref, emit_getref, emit_load_r_obj_r, emit_load_v_obj_r, emit_load_this_r, emit_wrtv,
  emit_rdr_narrow, emit_rdr, emit_cast, emit_not, emit_adds_i,
}
use angelsea.Translate.Objects.{
  emit_alloc, emit_free, emit_ref_cpy_v, emit_refcpy, emit_loadobj, emit_storeobj,
}
use angelsea.Translate.Control.{
  emit_callintf, emit_ret, emit_jmp, emit_jmpp, emit_conditional_jump, emit_suspend,
}

unfoldable pub emit_push : Ctx → M (Unit {0})
emit_push c = elim (push_value c.ins.opcode c.ins) [
  | none ↦ pure tt
  | some operand ↦ emit_stack_push_ins c operand
]

unfoldable pub emit_comparison : Ctx → M (Unit {0})
emit_comparison c = elim (compare_operands c.ins.opcode c.ins) [
  | none ↦ pure tt
  | some operands ↦ emit_compare c operands
]

abbrev pub script_system_call : Ctx → SystemCall
script_system_call c = record {
  fn_idx = c.ins.int 0;
  object_pointer_override = none;
  is_internal_call = false;
}

unfoldable pub emit_inc_dec : Ctx → UnOp → M (Unit {0})
emit_inc_dec c op = emit (Stmt.effect (Expr.unary op (Expr.frame_var c.ins.sword0 VarType.u32)))

-- The cases of the switch, in its order. The last two are `unsupported instruction` and
-- `unknown instruction`.
unfoldable pub translate_opcode : Opcode → Ctx → M (Unit {0})
translate_opcode Opcode.jit_entry c = pure tt
translate_opcode Opcode.str c = emit_vm_fallback c
translate_opcode Opcode.suspend c = emit_suspend c
translate_opcode Opcode.typeid c = emit_push c
translate_opcode Opcode.psh_c4 c = emit_push c
translate_opcode Opcode.psh_v4 c = emit_push c
translate_opcode Opcode.psh_g4 c = emit_push c
translate_opcode Opcode.psh_c8 c = emit_push c
translate_opcode Opcode.psh_v8 c = emit_push c
translate_opcode Opcode.var c = emit_push c
translate_opcode Opcode.psh_null c = emit_push c
translate_opcode Opcode.psh_v_ptr c = emit_push c
translate_opcode Opcode.psh_g_ptr c = emit_push c
translate_opcode Opcode.psh_r_ptr c = emit_push c
translate_opcode Opcode.psf c = emit_push c
translate_opcode Opcode.pga c = emit_push c
translate_opcode Opcode.objtype c = emit_push c
translate_opcode Opcode.pop_r_ptr c = emit_pop_r_ptr
translate_opcode Opcode.pop_ptr c = emit_pop_ptr
translate_opcode Opcode.rds_ptr c = emit_rds_ptr c
translate_opcode Opcode.chkref c = emit_chkref c
translate_opcode Opcode.chk_null_v c = emit_chk_null_v c
translate_opcode Opcode.chk_null_s c = emit_chk_null_s c
translate_opcode Opcode.alloc c = emit_alloc c
translate_opcode Opcode.free c = emit_free c
translate_opcode Opcode.copy c = emit_copy c
translate_opcode Opcode.set_v1 c =
    emit_assign_ins (Expr.frame_var c.ins.sword0 VarType.u32)
      (Expr.imm VarType.u32 (pos (c.ins.dword 0)))
translate_opcode Opcode.set_v2 c =
    emit_assign_ins (Expr.frame_var c.ins.sword0 VarType.u32)
      (Expr.imm VarType.u32 (pos (c.ins.dword 0)))
translate_opcode Opcode.set_v4 c =
    emit_assign_ins (Expr.frame_var c.ins.sword0 VarType.u32)
      (Expr.imm VarType.u32 (pos (c.ins.dword 0)))
translate_opcode Opcode.set_v8 c =
    emit_assign_ins (Expr.frame_var c.ins.sword0 VarType.u64)
      (Expr.imm VarType.u64 (pos c.ins.qword0))
translate_opcode Opcode.clr_v_ptr c =
    emit_assign_ins (Expr.frame_var c.ins.sword0 VarType.pword) (Expr.number (pos 0))
translate_opcode Opcode.cpy_v_to_r4 c =
    emit_assign_ins Expr.value_reg (Expr.frame_var c.ins.sword0 VarType.u32)
translate_opcode Opcode.cpy_r_to_v4 c =
    emit_assign_ins (Expr.frame_var c.ins.sword0 VarType.u32) Expr.value_reg
translate_opcode Opcode.cpy_v_to_r8 c =
    emit_assign_ins Expr.value_reg (Expr.frame_var c.ins.sword0 VarType.u64)
translate_opcode Opcode.cpy_r_to_v8 c =
    emit_assign_ins (Expr.frame_var c.ins.sword0 VarType.u64) Expr.value_reg
translate_opcode Opcode.cpy_v_to_v4 c =
    emit_assign_ins (Expr.frame_var c.ins.sword0 VarType.u32)
      (Expr.frame_var c.ins.sword1 VarType.u32)
translate_opcode Opcode.cpy_v_to_v8 c =
    emit_assign_ins (Expr.frame_var c.ins.sword0 VarType.u64)
      (Expr.frame_var c.ins.sword1 VarType.u64)
translate_opcode Opcode.cpy_v_to_g4 c = emit_cpy_v_to_g4 c
translate_opcode Opcode.cpy_g_to_v4 c = emit_cpy_g_to_v4 c
translate_opcode Opcode.ldv c = emit_ldv c
translate_opcode Opcode.set_g4 c = emit_set_g4 c
translate_opcode Opcode.ldg c = emit_ldg c
translate_opcode Opcode.ref_cpy_v c = emit_ref_cpy_v c
translate_opcode Opcode.refcpy c = emit_refcpy c
translate_opcode Opcode.loadobj c = emit_loadobj c
translate_opcode Opcode.storeobj c = emit_storeobj c
translate_opcode Opcode.getobj c = emit_getobj c
translate_opcode Opcode.getobjref c = emit_getobjref c
translate_opcode Opcode.getref c = emit_getref c
translate_opcode Opcode.load_r_obj_r c = emit_load_r_obj_r c
translate_opcode Opcode.load_v_obj_r c = emit_load_v_obj_r c
translate_opcode Opcode.load_this_r c = emit_load_this_r c
translate_opcode Opcode.wrtv1 c = emit_wrtv c VarType.u8
translate_opcode Opcode.wrtv2 c = emit_wrtv c VarType.u16
translate_opcode Opcode.wrtv4 c = emit_wrtv c VarType.u32
translate_opcode Opcode.wrtv8 c = emit_wrtv c VarType.u64
translate_opcode Opcode.rdr1 c = emit_rdr_narrow c VarType.u8
translate_opcode Opcode.rdr2 c = emit_rdr_narrow c VarType.u16
translate_opcode Opcode.rdr4 c = emit_rdr c VarType.u32
translate_opcode Opcode.rdr8 c = emit_rdr c VarType.u64
translate_opcode Opcode.cast c = emit_cast c
translate_opcode Opcode.call c = emit_direct_script_call_ins c (ScriptCall.by_idx (c.ins.int 0))
translate_opcode Opcode.callintf c = emit_callintf c
translate_opcode Opcode.thiscall1 c = emit_system_call c (script_system_call c)
translate_opcode Opcode.callsys c = emit_system_call c (script_system_call c)
translate_opcode Opcode.ret c = emit_ret c
translate_opcode Opcode.jmp c = emit_jmp c
translate_opcode Opcode.jmpp c = emit_jmpp c
translate_opcode Opcode.not c = emit_not c
translate_opcode Opcode.adds_i c = emit_adds_i c
translate_opcode Opcode.inc_vi c = emit_inc_dec c UnOp.inc
translate_opcode Opcode.dec_vi c = emit_inc_dec c UnOp.dec
translate_opcode Opcode.jz c = emit_conditional_jump c
translate_opcode Opcode.j_low_z c = emit_conditional_jump c
translate_opcode Opcode.jnz c = emit_conditional_jump c
translate_opcode Opcode.j_low_nz c = emit_conditional_jump c
translate_opcode Opcode.js c = emit_conditional_jump c
translate_opcode Opcode.jns c = emit_conditional_jump c
translate_opcode Opcode.jp c = emit_conditional_jump c
translate_opcode Opcode.jnp c = emit_conditional_jump c
translate_opcode Opcode.tz c = emit_test_ins Comparison.eq
translate_opcode Opcode.tnz c = emit_test_ins Comparison.ne
translate_opcode Opcode.ts c = emit_test_ins Comparison.lt
translate_opcode Opcode.tns c = emit_test_ins Comparison.ge
translate_opcode Opcode.tp c = emit_test_ins Comparison.gt
translate_opcode Opcode.tnp c = emit_test_ins Comparison.le
translate_opcode Opcode.cmp_i c = emit_comparison c
translate_opcode Opcode.cmp_u c = emit_comparison c
translate_opcode Opcode.cmp_d c = emit_comparison c
translate_opcode Opcode.cmp_f c = emit_comparison c
translate_opcode Opcode.cmp_i64 c = emit_comparison c
translate_opcode Opcode.cmp_u64 c = emit_comparison c
translate_opcode Opcode.cmp_ptr c = emit_comparison c
translate_opcode Opcode.cmpi_i c = emit_comparison c
translate_opcode Opcode.cmpi_u c = emit_comparison c
translate_opcode Opcode.cmpi_f c = emit_comparison c
translate_opcode Opcode.inc_i8 c = emit_prefixop_valuereg_ins UnOp.inc VarType.u8
translate_opcode Opcode.dec_i8 c = emit_prefixop_valuereg_ins UnOp.dec VarType.u8
translate_opcode Opcode.inc_i16 c = emit_prefixop_valuereg_ins UnOp.inc VarType.u16
translate_opcode Opcode.dec_i16 c = emit_prefixop_valuereg_ins UnOp.dec VarType.u16
translate_opcode Opcode.inc_i c = emit_prefixop_valuereg_ins UnOp.inc VarType.u32
translate_opcode Opcode.dec_i c = emit_prefixop_valuereg_ins UnOp.dec VarType.u32
translate_opcode Opcode.inc_i64 c = emit_prefixop_valuereg_ins UnOp.inc VarType.u64
translate_opcode Opcode.dec_i64 c = emit_prefixop_valuereg_ins UnOp.dec VarType.u64
translate_opcode Opcode.inc_f c = emit_prefixop_valuereg_ins UnOp.inc VarType.f32
translate_opcode Opcode.dec_f c = emit_prefixop_valuereg_ins UnOp.dec VarType.f32
translate_opcode Opcode.inc_d c = emit_prefixop_valuereg_ins UnOp.inc VarType.f64
translate_opcode Opcode.dec_d c = emit_prefixop_valuereg_ins UnOp.dec VarType.f64
translate_opcode Opcode.neg_i c = emit_unop_var_inplace_ins c UnOp.neg VarType.s32
translate_opcode Opcode.neg_i64 c = emit_unop_var_inplace_ins c UnOp.neg VarType.s64
translate_opcode Opcode.neg_f c = emit_unop_var_inplace_ins c UnOp.neg VarType.f32
translate_opcode Opcode.neg_d c = emit_unop_var_inplace_ins c UnOp.neg VarType.f64
translate_opcode Opcode.add_i c =
    emit_binop_var_var_ins c BinOp.add VarType.s32 VarType.s32 VarType.s32
translate_opcode Opcode.sub_i c =
    emit_binop_var_var_ins c BinOp.sub VarType.s32 VarType.s32 VarType.s32
translate_opcode Opcode.mul_i c =
    emit_binop_var_var_ins c BinOp.mul VarType.s32 VarType.s32 VarType.s32
translate_opcode Opcode.add_i64 c =
    emit_binop_var_var_ins c BinOp.add VarType.s64 VarType.s64 VarType.s64
translate_opcode Opcode.sub_i64 c =
    emit_binop_var_var_ins c BinOp.sub VarType.s64 VarType.s64 VarType.s64
translate_opcode Opcode.mul_i64 c =
    emit_binop_var_var_ins c BinOp.mul VarType.s64 VarType.s64 VarType.s64
translate_opcode Opcode.add_f c =
    emit_binop_var_var_ins c BinOp.add VarType.f32 VarType.f32 VarType.f32
translate_opcode Opcode.sub_f c =
    emit_binop_var_var_ins c BinOp.sub VarType.f32 VarType.f32 VarType.f32
translate_opcode Opcode.mul_f c =
    emit_binop_var_var_ins c BinOp.mul VarType.f32 VarType.f32 VarType.f32
translate_opcode Opcode.add_d c =
    emit_binop_var_var_ins c BinOp.add VarType.f64 VarType.f64 VarType.f64
translate_opcode Opcode.sub_d c =
    emit_binop_var_var_ins c BinOp.sub VarType.f64 VarType.f64 VarType.f64
translate_opcode Opcode.mul_d c =
    emit_binop_var_var_ins c BinOp.mul VarType.f64 VarType.f64 VarType.f64
translate_opcode Opcode.div_i c = emit_divmod_var_int_ins c BinOp.div 0x80000000 VarType.s32
translate_opcode Opcode.mod_i c = emit_divmod_var_int_ins c BinOp.rem 0x80000000 VarType.s32
translate_opcode Opcode.div_u c = emit_divmod_var_unsigned_ins c BinOp.div VarType.u32
translate_opcode Opcode.mod_u c = emit_divmod_var_unsigned_ins c BinOp.rem VarType.u32
translate_opcode Opcode.div_i64 c = emit_divmod_var_int_ins c BinOp.div (2 ^ 63) VarType.s64
translate_opcode Opcode.mod_i64 c = emit_divmod_var_int_ins c BinOp.rem (2 ^ 63) VarType.s64
translate_opcode Opcode.div_u64 c = emit_divmod_var_unsigned_ins c BinOp.div VarType.u64
translate_opcode Opcode.mod_u64 c = emit_divmod_var_unsigned_ins c BinOp.rem VarType.u64
translate_opcode Opcode.div_f c = emit_divmod_var_float_ins c FloatOp.asea_fdiv VarType.f32
translate_opcode Opcode.div_d c = emit_divmod_var_float_ins c FloatOp.asea_fdiv VarType.f64
translate_opcode Opcode.mod_f c = emit_divmod_var_float_ins c FloatOp.fmodf VarType.f32
translate_opcode Opcode.mod_d c = emit_divmod_var_float_ins c FloatOp.fmod VarType.f64
translate_opcode Opcode.bnot64 c = emit_unop_var_inplace_ins c UnOp.bnot VarType.u64
translate_opcode Opcode.band64 c =
    emit_binop_var_var_ins c BinOp.band VarType.u64 VarType.u64 VarType.u64
translate_opcode Opcode.bxor64 c =
    emit_binop_var_var_ins c BinOp.bxor VarType.u64 VarType.u64 VarType.u64
translate_opcode Opcode.bor64 c =
    emit_binop_var_var_ins c BinOp.bor VarType.u64 VarType.u64 VarType.u64
translate_opcode Opcode.bsll64 c =
    emit_binop_var_var_ins c BinOp.shl VarType.u64 VarType.u32 VarType.u64
translate_opcode Opcode.bsrl64 c =
    emit_binop_var_var_ins c BinOp.shr VarType.u64 VarType.u32 VarType.u64
translate_opcode Opcode.bsra64 c =
    emit_binop_var_var_ins c BinOp.shr VarType.s64 VarType.u32 VarType.s64
translate_opcode Opcode.bnot c = emit_unop_var_inplace_ins c UnOp.bnot VarType.u32
translate_opcode Opcode.band c =
    emit_binop_var_var_ins c BinOp.band VarType.u32 VarType.u32 VarType.u32
translate_opcode Opcode.bxor c =
    emit_binop_var_var_ins c BinOp.bxor VarType.u32 VarType.u32 VarType.u32
translate_opcode Opcode.bor c =
    emit_binop_var_var_ins c BinOp.bor VarType.u32 VarType.u32 VarType.u32
translate_opcode Opcode.bsll c =
    emit_binop_var_var_ins c BinOp.shl VarType.u32 VarType.u32 VarType.u32
translate_opcode Opcode.bsrl c =
    emit_binop_var_var_ins c BinOp.shr VarType.u32 VarType.u32 VarType.u32
translate_opcode Opcode.bsra c =
    emit_binop_var_var_ins c BinOp.shr VarType.s32 VarType.u32 VarType.s32
translate_opcode Opcode.i_to_f c = emit_primitive_cast_var_ins c VarType.s32 VarType.f32
translate_opcode Opcode.f_to_i c = emit_primitive_cast_var_ins c VarType.f32 VarType.s32
translate_opcode Opcode.u_to_f c = emit_primitive_cast_var_ins c VarType.u32 VarType.f32
translate_opcode Opcode.f_to_u c = emit_primitive_cast_var_ins c VarType.f32 VarType.u32
translate_opcode Opcode.sb_to_i c = emit_primitive_cast_var_ins c VarType.s8 VarType.s32
translate_opcode Opcode.sw_to_i c = emit_primitive_cast_var_ins c VarType.s16 VarType.s32
translate_opcode Opcode.ub_to_i c = emit_primitive_cast_var_ins c VarType.u8 VarType.s32
translate_opcode Opcode.uw_to_i c = emit_primitive_cast_var_ins c VarType.u16 VarType.s32
translate_opcode Opcode.i_to_b c = emit_primitive_cast_var_ins c VarType.u32 VarType.s8
translate_opcode Opcode.i_to_w c = emit_primitive_cast_var_ins c VarType.u32 VarType.s16
translate_opcode Opcode.i64_to_i c = emit_primitive_cast_var_ins c VarType.s64 VarType.s32
translate_opcode Opcode.u_to_i64 c = emit_primitive_cast_var_ins c VarType.u32 VarType.s64
translate_opcode Opcode.i_to_i64 c = emit_primitive_cast_var_ins c VarType.s32 VarType.s64
translate_opcode Opcode.f_to_d c = emit_primitive_cast_var_ins c VarType.f32 VarType.f64
translate_opcode Opcode.d_to_f c = emit_primitive_cast_var_ins c VarType.f64 VarType.f32
translate_opcode Opcode.f_to_i64 c = emit_primitive_cast_var_ins c VarType.f32 VarType.s64
translate_opcode Opcode.d_to_i64 c = emit_primitive_cast_var_ins c VarType.f64 VarType.s64
translate_opcode Opcode.f_to_u64 c = emit_primitive_cast_var_ins c VarType.f32 VarType.u64
translate_opcode Opcode.d_to_u64 c = emit_primitive_cast_var_ins c VarType.f64 VarType.u64
translate_opcode Opcode.i64_to_f c = emit_primitive_cast_var_ins c VarType.s64 VarType.f32
translate_opcode Opcode.u64_to_f c = emit_primitive_cast_var_ins c VarType.u64 VarType.f32
translate_opcode Opcode.i64_to_d c = emit_primitive_cast_var_ins c VarType.s64 VarType.f64
translate_opcode Opcode.u64_to_d c = emit_primitive_cast_var_ins c VarType.u64 VarType.f64
translate_opcode Opcode.d_to_i c = emit_primitive_cast_var_ins c VarType.f64 VarType.s32
translate_opcode Opcode.d_to_u c = emit_primitive_cast_var_ins c VarType.f64 VarType.u32
translate_opcode Opcode.i_to_d c = emit_primitive_cast_var_ins c VarType.s32 VarType.f64
translate_opcode Opcode.u_to_d c = emit_primitive_cast_var_ins c VarType.u32 VarType.f64
translate_opcode Opcode.addi_i c =
    emit_binop_var_imm_ins c BinOp.add VarType.s32 (Expr.number (c.ins.int 1)) VarType.s32
translate_opcode Opcode.subi_i c =
    emit_binop_var_imm_ins c BinOp.sub VarType.s32 (Expr.number (c.ins.int 1)) VarType.s32
translate_opcode Opcode.muli_i c =
    emit_binop_var_imm_ins c BinOp.mul VarType.s32 (Expr.number (c.ins.int 1)) VarType.s32
translate_opcode Opcode.addi_f c =
    emit_binop_var_imm_ins c BinOp.add VarType.f32 (Expr.float_bits (c.ins.dword 1)) VarType.f32
translate_opcode Opcode.subi_f c =
    emit_binop_var_imm_ins c BinOp.sub VarType.f32 (Expr.float_bits (c.ins.dword 1)) VarType.f32
translate_opcode Opcode.muli_f c =
    emit_binop_var_imm_ins c BinOp.mul VarType.f32 (Expr.float_bits (c.ins.dword 1)) VarType.f32
translate_opcode _ c = emit_vm_fallback c
