-- ===== src/Translate/Safe/Emitters.antt =====
-- The shared emitting functions keep every jump safe.
use angelsea.Common.{
  ℕ, Bool, true, false, refl, List, [], ◌∷◌, ◌==◌, ltb, not, ◌&&◌, inl, inr, Option-cases,
  Bool-cases, lookup,
}
use angelsea.Bytecode.VarType.{VarType, is_pointer, size_of}
use angelsea.Bytecode.Ins.{Operand, Comparison}
use angelsea.Translate.CCode.{Name, BinOp, UnOp, FloatOp, Expr, Piece, Stmt}
use angelsea.Translate.State.{Ctx, emit}
use angelsea.Translate.Emit.{
  emit_global_lookup, emit_type_info_lookup, make_local_from_operand, emit_stack_push, store_push,
  emit_stack_push_ins, flush_pushes, flush_stack_push_optimization, emit_save_sp, emit_save_pc,
  emit_assign_ins, emit_compare, emit_test_ins,
}
use angelsea.Translate.Arithmetic.{
  emit_prefixop_valuereg_ins, emit_unop_var_inplace_ins, emit_binop_var_var_ins,
  emit_binop_var_imm_ins, emit_divmod_var_float_ins, emit_divmod_var_unsigned_ins,
  emit_divmod_var_int_ins, emit_narrowing_cast, emit_primitive_cast_var_ins,
}
use angelsea.Translate.Safe.Rules.{
  Keeps, Keeps-bind, Keeps-then, Keeps-pure, Keeps-emit, Keeps-emit_vm_fallback, keeps,
}

module _ (bt : List ℕ) where
  pub Keeps-text : (ps : List Piece) → Keeps bt (emit (Stmt.text ps))
  Keeps-text ps = Keeps-emit bt (Stmt.text ps) refl

  pub Keeps-declare : (t : VarType) (x : Name) (e : Expr) → Keeps bt (emit (Stmt.declare t x e))
  Keeps-declare t x e = Keeps-emit bt (Stmt.declare t x e) refl

  pub Keeps-assign : (d e : Expr) → Keeps bt (emit (Stmt.assign d e))
  Keeps-assign d e = Keeps-emit bt (Stmt.assign d e) refl

  pub Keeps-effect : (e : Expr) → Keeps bt (emit (Stmt.effect e))
  Keeps-effect e = Keeps-emit bt (Stmt.effect e) refl

pub ruleset plain = (Keeps-text, Keeps-declare, Keeps-assign, Keeps-effect)

pub ruleset emits = (keeps, plain)

module _ (bt : List ℕ) (c : Ctx) where
  pub Keeps-emit_global_lookup : (p : ℕ) → Keeps bt (emit_global_lookup c p)
  unfolding emit_global_lookup
  Keeps-emit_global_lookup p = elim (Option-cases (c.engine.global_id p)) [
    | inl e ↦ rw (e, emit_global_lookup) (search emits)
    | inr (id, e) ↦ rw (e, emit_global_lookup) (search emits)
  ]

  pub Keeps-emit_type_info_lookup : Keeps bt emit_type_info_lookup
  unfolding emit_type_info_lookup
  Keeps-emit_type_info_lookup = search emits

  pub Keeps-make_local_from_operand :
      (x : Name) (o : Operand) → Keeps bt (make_local_from_operand c x o)
  unfolding make_local_from_operand
  Keeps-make_local_from_operand x (Operand.global_variable p t b true) =
      search (emits, Keeps-emit_global_lookup)
  Keeps-make_local_from_operand x (Operand.global_variable p t b false) =
      search (emits, Keeps-emit_global_lookup)
  Keeps-make_local_from_operand x (Operand.object_type p) =
      search (emits, Keeps-emit_type_info_lookup)
  Keeps-make_local_from_operand x _ = search emits

  pub Keeps-emit_stack_push : (e : Expr) (t : VarType) → Keeps bt (emit_stack_push e t)
  unfolding emit_stack_push
  Keeps-emit_stack_push e t = elim (Bool-cases (is_pointer t)) [
    | inl p ↦ rw p (search emits)
    | inr p ↦ rw p (search emits)
  ]

  pub Keeps-store_push : (t : VarType) → Keeps bt (store_push c t)
  unfolding store_push
  Keeps-store_push t = elim (Option-cases (lookup c.ins.offset c.found.stack_push_infos)) [
    | inl e ↦ rw (e, store_push) (search (emits, Keeps-emit_stack_push))
    | inr (u, e) ↦ rw (e, store_push) (search emits)
  ]

  pub Keeps-emit_stack_push_ins : (o : Operand) → Keeps bt (emit_stack_push_ins c o)
  unfolding emit_stack_push_ins
  Keeps-emit_stack_push_ins o = search (keeps, Keeps-make_local_from_operand, Keeps-store_push)

  pub Keeps-flush_pushes : (pushes : List ℕ) → Keeps bt (flush_pushes c pushes)
  unfolding flush_pushes
  Keeps-flush_pushes [] = search emits
  Keeps-flush_pushes (p ∷ rest) = elim (Option-cases (lookup p c.found.stack_push_infos)) [
    | inl e ↦ rw (e, flush_pushes) (Keeps-then bt _ _ (search emits) (Keeps-flush_pushes rest))
    | inr (t, e) ↦
        rw (e, flush_pushes)
          (Keeps-then bt _ _ (search Keeps-emit_stack_push) (Keeps-flush_pushes rest))
  ]

  pub Keeps-flush_stack_push_optimization : Keeps bt (flush_stack_push_optimization c)
  unfolding flush_stack_push_optimization
  Keeps-flush_stack_push_optimization =
      elim (Option-cases (lookup c.ins.offset c.found.fn_to_stack_push)) [
        | inl e ↦ rw (e, flush_stack_push_optimization) (search emits)
        | inr (pushes, e) ↦ rw (e, flush_stack_push_optimization) (Keeps-flush_pushes pushes)
      ]

  pub Keeps-emit_save_sp : Keeps bt emit_save_sp
  unfolding emit_save_sp
  Keeps-emit_save_sp = search emits

  pub Keeps-emit_save_pc : (b : Bool) → Keeps bt (emit_save_pc c b)
  unfolding emit_save_pc
  Keeps-emit_save_pc b = search emits

  pub Keeps-emit_assign_ins : (d e : Expr) → Keeps bt (emit_assign_ins d e)
  unfolding emit_assign_ins
  Keeps-emit_assign_ins d e = search emits

  pub Keeps-emit_compare : (o : Operand × Operand) → Keeps bt (emit_compare c o)
  unfolding emit_compare
  Keeps-emit_compare (l, r) = search (emits, Keeps-make_local_from_operand)

  pub Keeps-emit_test_ins : (op : Comparison) → Keeps bt (emit_test_ins op)
  unfolding emit_test_ins
  Keeps-emit_test_ins op = search emits

  pub Keeps-emit_prefixop_valuereg_ins :
      (op : UnOp) (t : VarType) → Keeps bt (emit_prefixop_valuereg_ins op t)
  unfolding emit_prefixop_valuereg_ins
  Keeps-emit_prefixop_valuereg_ins op t = search emits

  pub Keeps-emit_unop_var_inplace_ins :
      (op : UnOp) (t : VarType) → Keeps bt (emit_unop_var_inplace_ins c op t)
  unfolding emit_unop_var_inplace_ins
  Keeps-emit_unop_var_inplace_ins op t = search emits

  pub Keeps-emit_binop_var_var_ins :
      (op : BinOp) (l r d : VarType) → Keeps bt (emit_binop_var_var_ins c op l r d)
  unfolding emit_binop_var_var_ins
  Keeps-emit_binop_var_var_ins op l r d = search emits

  pub Keeps-emit_binop_var_imm_ins :
      (op : BinOp) (l : VarType) (e : Expr) (d : VarType)
      → Keeps bt (emit_binop_var_imm_ins c op l e d)
  unfolding emit_binop_var_imm_ins
  Keeps-emit_binop_var_imm_ins op l e d = search emits

  pub Keeps-emit_divmod_var_float_ins :
      (op : FloatOp) (t : VarType) → Keeps bt (emit_divmod_var_float_ins c op t)
  unfolding emit_divmod_var_float_ins
  Keeps-emit_divmod_var_float_ins op t = search emits

  pub Keeps-emit_divmod_var_unsigned_ins :
      (op : BinOp) (t : VarType) → Keeps bt (emit_divmod_var_unsigned_ins c op t)
  unfolding emit_divmod_var_unsigned_ins
  Keeps-emit_divmod_var_unsigned_ins op t = search emits

  pub Keeps-emit_divmod_var_int_ins :
      (op : BinOp) (n : ℕ) (t : VarType) → Keeps bt (emit_divmod_var_int_ins c op n t)
  unfolding emit_divmod_var_int_ins
  Keeps-emit_divmod_var_int_ins op n t = search emits depth 8

  pub Keeps-emit_primitive_cast_var_ins :
      (src dst : VarType) → Keeps bt (emit_primitive_cast_var_ins c src dst)
  unfolding emit_primitive_cast_var_ins emit_narrowing_cast emit_assign_ins
  Keeps-emit_primitive_cast_var_ins src dst =
      elim (Bool-cases (not (size_of src == size_of dst) && ltb (size_of dst) 4)) [
        | inl e ↦ rw e (search emits)
        | inr e ↦ rw e (search emits)
      ]

pub ruleset emitters = (
  emits, Keeps-emit_global_lookup, Keeps-emit_type_info_lookup, Keeps-make_local_from_operand,
  Keeps-emit_stack_push_ins, Keeps-flush_stack_push_optimization, Keeps-emit_save_sp,
  Keeps-emit_save_pc, Keeps-emit_assign_ins,
)

pub ruleset table_emitters = (
  Keeps-pure, Keeps-emit_vm_fallback, Keeps-emit_assign_ins, Keeps-emit_test_ins,
  Keeps-emit_prefixop_valuereg_ins, Keeps-emit_unop_var_inplace_ins, Keeps-emit_binop_var_var_ins,
  Keeps-emit_binop_var_imm_ins, Keeps-emit_divmod_var_float_ins, Keeps-emit_divmod_var_unsigned_ins,
  Keeps-emit_divmod_var_int_ins, Keeps-emit_primitive_cast_var_ins,
)
