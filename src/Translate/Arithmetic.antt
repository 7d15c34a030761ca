-- ===== src/Translate/Arithmetic.antt =====
-- The emitting functions for arithmetic and conversions: emit_prefixop_valuereg_ins to
-- emit_primitive_cast_var_ins of src/angelsea/detail/bytecode2c.cpp.
use angelsea.Common.{ℕ, ℤ, pos, negsuc, ◌&&◌, not, ◌==◌, ltb, if◌then◌else◌}
use angelsea.Bytecode.VarType.{VarType, size_of}
use angelsea.Bytecode.Ins.{Comparison}
use angelsea.Translate.CCode.{Handler, Name, BinOp, UnOp, FloatOp, Expr, Stmt}
use angelsea.Translate.State.{Ctx, M, ◌>>◌, emit, fail_when}
use angelsea.Translate.Emit.{emit_assign_ins}

unfoldable pub emit_prefixop_valuereg_ins : UnOp → VarType → M (Unit {0})
emit_prefixop_valuereg_ins op t = emit (Stmt.effect (Expr.unary op (Expr.reg_deref t)))

unfoldable pub emit_unop_var_inplace_ins : Ctx → UnOp → VarType → M (Unit {0})
emit_unop_var_inplace_ins c op t =
    emit
      (Stmt.assign (Expr.frame_var c.ins.sword0 t) (Expr.unary op (Expr.frame_var c.ins.sword0 t)))

unfoldable pub emit_binop_var_var_ins : Ctx → BinOp → VarType → VarType → VarType → M (Unit {0})
emit_binop_var_var_ins c op l r d = emit (
    Stmt.assign (Expr.frame_var c.ins.sword0 d)
      (Expr.binary op (Expr.frame_var c.ins.sword1 l) (Expr.frame_var c.ins.sword2 r)))

unfoldable pub emit_binop_var_imm_ins : Ctx → BinOp → VarType → Expr → VarType → M (Unit {0})
emit_binop_var_imm_ins c op l rhs d = emit (
    Stmt.assign (Expr.frame_var c.ins.sword0 d)
      (Expr.binary op (Expr.frame_var c.ins.sword1 l) rhs))

abbrev is_zero : Expr → Expr
is_zero e = Expr.binary (BinOp.test Comparison.eq) e (Expr.number (pos 0))

unfoldable pub emit_divmod_var_float_ins : Ctx → FloatOp → VarType → M (Unit {0})
emit_divmod_var_float_ins c op t = do
  emit (Stmt.declare t Name.lhs (Expr.frame_var c.ins.sword1 t))
  emit (Stmt.declare t Name.divider (Expr.frame_var c.ins.sword2 t))
  fail_when c (is_zero (Expr.local_var Name.divider)) Handler.err_divide_by_zero
  emit (
      Stmt.assign (Expr.frame_var c.ins.sword0 t)
        (Expr.float_call op (Expr.local_var Name.lhs) (Expr.local_var Name.divider)))

unfoldable pub emit_divmod_var_unsigned_ins : Ctx → BinOp → VarType → M (Unit {0})
emit_divmod_var_unsigned_ins c op t = do
  emit (Stmt.declare t Name.divider (Expr.frame_var c.ins.sword2 t))
  fail_when c (is_zero (Expr.local_var Name.divider)) Handler.err_divide_by_zero
  emit (
      Stmt.assign (Expr.frame_var c.ins.sword0 t)
        (Expr.binary op (Expr.frame_var c.ins.sword1 t) (Expr.local_var Name.divider)))

-- `divider == -1 && lhs == ({type}){overflow}`.
abbrev overflow_test : VarType → ℕ → Expr
overflow_test t overflow =
    Expr.both
      (Expr.binary (BinOp.test Comparison.eq) (Expr.local_var Name.divider)
        (Expr.number (negsuc 0)))
      (Expr.binary (BinOp.test Comparison.eq) (Expr.local_var Name.lhs) (Expr.imm t (pos overflow)))

unfoldable pub emit_divmod_var_int_ins : Ctx → BinOp → ℕ → VarType → M (Unit {0})
emit_divmod_var_int_ins c op lhs_overflow_value t = do
  emit (Stmt.declare t Name.lhs (Expr.frame_var c.ins.sword1 t))
  emit (Stmt.declare t Name.divider (Expr.frame_var c.ins.sword2 t))
  fail_when c (is_zero (Expr.local_var Name.divider)) Handler.err_divide_by_zero
  fail_when c (overflow_test t lhs_overflow_value) Handler.err_divide_overflow
  emit (
      Stmt.assign (Expr.frame_var c.ins.sword0 t)
        (Expr.binary op (Expr.local_var Name.lhs) (Expr.local_var Name.divider)))

-- The variable's dword is cleared before a byte or a word is written to it.
unfoldable pub emit_narrowing_cast : Ctx → ℤ → VarType → VarType → M (Unit {0})
emit_narrowing_cast c from src dst = do
  emit (Stmt.declare dst Name.value (Expr.frame_var from src))
  emit (Stmt.assign (Expr.frame_var c.ins.sword0 VarType.u32) (Expr.number (pos 0)))
  emit (Stmt.assign (Expr.frame_var c.ins.sword0 dst) (Expr.local_var Name.value))

-- An instruction of one dword has one operand, which is cast in place.
unfoldable pub emit_primitive_cast_var_ins : Ctx → VarType → VarType → M (Unit {0})
emit_primitive_cast_var_ins c src dst =
    let from = if c.ins.size == 1 then c.ins.sword0 else c.ins.sword1 in
    if not (size_of src == size_of dst) && ltb (size_of dst) 4
    then emit_narrowing_cast c from src dst
    else emit_assign_ins (Expr.frame_var c.ins.sword0 dst) (Expr.frame_var from src)
