-- ===== src/Translate/Safe/Opcodes.antt =====
-- The code of every instruction is safe, where the instruction's own jumps are branch targets.
use angelsea.Common.{ℕ, List, inl, inr, Option-cases}
use angelsea.Bytecode.VarType.{VarType}
use angelsea.Bytecode.Ins.{push_value, compare_operands}
use angelsea.Translate.CCode.{UnOp}
use angelsea.Translate.State.{Ctx}
use angelsea.Translate.Memory.{
  emit_pop_r_ptr, emit_pop_ptr, emit_rds_ptr, emit_chkref, emit_chk_null_v, emit_chk_null_s,
  emit_copy, emit_cpy_v_to_g4, emit_cpy_g_to_v4, emit_ldv, emit_set_g4, emit_ldg, emit_getobj,
  emit_getobjref, emit_getref, emit_load_r_obj_r, emit_load_v_obj_r, emit_load_this_r, emit_wrtv,
  emit_rdr_narrow, emit_rdr, emit_cast, emit_not, emit_adds_i,
}
use angelsea.Translate.Control.{call_virtual, emit_callintf, fast_return, emit_ret, emit_suspend}
use angelsea.Translate.Switch.{emit_push, emit_comparison, emit_inc_dec}
use angelsea.Translate.Safe.Rules.{Keeps}
use angelsea.Translate.Safe.Emitters.{
  emits, emitters, table_emitters, Keeps-emit_compare, Keeps-make_local_from_operand,
}
use angelsea.Translate.Safe.Calls.{
  Keeps-emit_direct_script_call_ins, Keeps-emit_system_call, Keeps-emit_alloc, Keeps-emit_free,
  Keeps-emit_ref_cpy_v, Keeps-emit_refcpy, Keeps-emit_loadobj, Keeps-emit_storeobj,
}

module _ (bt : List ℕ) (c : Ctx) where
  pub Keeps-emit_pop_r_ptr : Keeps bt emit_pop_r_ptr
  unfolding emit_pop_r_ptr
  Keeps-emit_pop_r_ptr = search emitters

  pub Keeps-emit_pop_ptr : Keeps bt emit_pop_ptr
  unfolding emit_pop_ptr
  Keeps-emit_pop_ptr = search emitters

  pub Keeps-emit_rds_ptr : Keeps bt (emit_rds_ptr c)
  unfolding emit_rds_ptr
  Keeps-emit_rds_ptr = search emitters

  pub Keeps-emit_chkref : Keeps bt (emit_chkref c)
  unfolding emit_chkref
  Keeps-emit_chkref = search emitters

  pub Keeps-emit_chk_null_v : Keeps bt (emit_chk_null_v c)
  unfolding emit_chk_null_v
  Keeps-emit_chk_null_v = search emitters

  pub Keeps-emit_chk_null_s : Keeps bt (emit_chk_null_s c)
  unfolding emit_chk_null_s
  Keeps-emit_chk_null_s = search emitters

  pub Keeps-emit_copy : Keeps bt (emit_copy c)
  unfolding emit_copy
  Keeps-emit_copy = search emitters depth 8

  pub Keeps-emit_cpy_v_to_g4 : Keeps bt (emit_cpy_v_to_g4 c)
  unfolding emit_cpy_v_to_g4
  Keeps-emit_cpy_v_to_g4 = search emitters

  pub Keeps-emit_cpy_g_to_v4 : Keeps bt (emit_cpy_g_to_v4 c)
  unfolding emit_cpy_g_to_v4
  Keeps-emit_cpy_g_to_v4 = search emitters

  pub Keeps-emit_ldv : Keeps bt (emit_ldv c)
  unfolding emit_ldv
  Keeps-emit_ldv = search emitters

  pub Keeps-emit_set_g4 : Keeps bt (emit_set_g4 c)
  unfolding emit_set_g4
  Keeps-emit_set_g4 = search emitters

  pub Keeps-emit_ldg : Keeps bt (emit_ldg c)
  unfolding emit_ldg
  Keeps-emit_ldg = search emitters

  pub Keeps-emit_getobj : Keeps bt (emit_getobj c)
  unfolding emit_getobj
  Keeps-emit_getobj = search emitters depth 8

  pub Keeps-emit_getobjref : Keeps bt (emit_getobjref c)
  unfolding emit_getobjref
  Keeps-emit_getobjref = search emitters

  pub Keeps-emit_getref : Keeps bt (emit_getref c)
  unfolding emit_getref
  Keeps-emit_getref = search emitters

  pub Keeps-emit_load_r_obj_r : Keeps bt (emit_load_r_obj_r c)
  unfolding emit_load_r_obj_r
  Keeps-emit_load_r_obj_r = search emitters

  pub Keeps-emit_load_v_obj_r : Keeps bt (emit_load_v_obj_r c)
  unfolding emit_load_v_obj_r
  Keeps-emit_load_v_obj_r = search emitters

  pub Keeps-emit_load_this_r : Keeps bt (emit_load_this_r c)
  unfolding emit_load_this_r
  Keeps-emit_load_this_r = search emitters

  pub Keeps-emit_cast : Keeps bt (emit_cast c)
  unfolding emit_cast
  Keeps-emit_cast = search emitters

  pub Keeps-emit_not : Keeps bt (emit_not c)
  unfolding emit_not
  Keeps-emit_not = search emitters

  pub Keeps-emit_adds_i : Keeps bt (emit_adds_i c)
  unfolding emit_adds_i
  Keeps-emit_adds_i = search emitters

  pub Keeps-emit_suspend : Keeps bt (emit_suspend c)
  unfolding emit_suspend
  Keeps-emit_suspend = search emitters

  pub Keeps-emit_wrtv : (t : VarType) → Keeps bt (emit_wrtv c t)
  unfolding emit_wrtv
  Keeps-emit_wrtv t = search emitters

  pub Keeps-emit_rdr_narrow : (t : VarType) → Keeps bt (emit_rdr_narrow c t)
  unfolding emit_rdr_narrow
  Keeps-emit_rdr_narrow t = search emitters

  pub Keeps-emit_rdr : (t : VarType) → Keeps bt (emit_rdr c t)
  unfolding emit_rdr
  Keeps-emit_rdr t = search emitters

  pub Keeps-emit_inc_dec : (op : UnOp) → Keeps bt (emit_inc_dec c op)
  unfolding emit_inc_dec
  Keeps-emit_inc_dec op = search emitters

  pub Keeps-emit_callintf : Keeps bt (emit_callintf c)
  unfolding emit_callintf call_virtual
  Keeps-emit_callintf = search (emitters, Keeps-emit_direct_script_call_ins) depth 8

  pub Keeps-emit_ret : Keeps bt (emit_ret c)
  unfolding emit_ret fast_return
  Keeps-emit_ret = search emitters depth 24

  pub Keeps-emit_push : Keeps bt (emit_push c)
  unfolding emit_push
  Keeps-emit_push = elim (Option-cases (push_value c.ins.opcode c.ins)) [
    | inl e ↦ rw (e, emit_push) (search emitters)
    | inr (o, e) ↦ rw (e, emit_push) (search emitters)
  ]

  pub Keeps-emit_comparison : Keeps bt (emit_comparison c)
  unfolding emit_comparison
  Keeps-emit_comparison = elim (Option-cases (compare_operands c.ins.opcode c.ins)) [
    | inl e ↦ rw (e, emit_comparison) (search emitters)
    | inr (o, e) ↦ rw (e, emit_comparison) (search Keeps-emit_compare)
  ]

pub ruleset opcodes = (
  table_emitters, Keeps-emit_direct_script_call_ins, Keeps-emit_system_call, Keeps-emit_alloc,
  Keeps-emit_free, Keeps-emit_ref_cpy_v, Keeps-emit_refcpy, Keeps-emit_loadobj, Keeps-emit_storeobj,
  Keeps-emit_pop_r_ptr, Keeps-emit_pop_ptr, Keeps-emit_rds_ptr, Keeps-emit_chkref,
  Keeps-emit_chk_null_v, Keeps-emit_chk_null_s, Keeps-emit_copy, Keeps-emit_cpy_v_to_g4,
  Keeps-emit_cpy_g_to_v4, Keeps-emit_ldv, Keeps-emit_set_g4, Keeps-emit_ldg, Keeps-emit_getobj,
  Keeps-emit_getobjref, Keeps-emit_getref, Keeps-emit_load_r_obj_r, Keeps-emit_load_v_obj_r,
  Keeps-emit_load_this_r, Keeps-emit_cast, Keeps-emit_not, Keeps-emit_adds_i, Keeps-emit_suspend,
  Keeps-emit_wrtv, Keeps-emit_rdr_narrow, Keeps-emit_rdr, Keeps-emit_inc_dec, Keeps-emit_callintf,
  Keeps-emit_ret, Keeps-emit_push, Keeps-emit_comparison,
)
