-- ===== src/Translate/Memory.antt =====
-- The instructions that move values between the stack, the frame, globals and the value
-- register: their cases in translate_instruction of src/angelsea/detail/bytecode2c.cpp.
use angelsea.Common.{◌*◌, ℤ, pos, [], ◌∷◌}
use angelsea.Bytecode.VarType.{VarType}
use angelsea.Bytecode.Ins.{Comparison}
use angelsea.Translate.CCode.{Handler, BinOp, Expr, Piece, Stmt}
use angelsea.Translate.State.{Ctx, M, ◌>>=◌, ◌>>◌, emit, fail_when}
use angelsea.Translate.Emit.{line, emit_global_lookup, emit_assign_ins}
use angelsea.Translate.Calls.{fmt}

abbrev is_null : Expr → Expr
is_null e = Expr.binary (BinOp.test Comparison.eq) e (Expr.number (pos 0))

unfoldable pub emit_pop_r_ptr : M (Unit {0})
emit_pop_r_ptr = do
  line "value_reg = sp->as_asPWORD;"
  line "sp = (asea_var*)((char*)sp + sizeof(asPWORD));"

unfoldable pub emit_pop_ptr : M (Unit {0})
emit_pop_ptr = line "sp = (asea_var*)((char*)sp + sizeof(asPWORD));"

unfoldable pub emit_rds_ptr : Ctx → M (Unit {0})
emit_rds_ptr c = do
  line "asPWORD* a = (asPWORD*)sp->as_ptr;"
  fail_when c (Expr.raw "a == 0") Handler.err_null
  line "sp->as_asPWORD = *a;"

unfoldable pub emit_chkref : Ctx → M (Unit {0})
emit_chkref c = fail_when c (Expr.raw "sp->as_asPWORD == 0") Handler.err_null

unfoldable pub emit_chk_null_v : Ctx → M (Unit {0})
emit_chk_null_v c =
    fail_when c (is_null (Expr.frame_var c.ins.sword0 VarType.pword)) Handler.err_null

unfoldable pub emit_chk_null_s : Ctx → M (Unit {0})
emit_chk_null_s c =
    fail_when c (is_null (Expr.stack_var c.ins.word0 VarType.pword)) Handler.err_null

unfoldable pub emit_copy : Ctx → M (Unit {0})
emit_copy c = do
  line "void *dst = sp->as_ptr;"
  line "sp = (asea_var*)((char*)sp + sizeof(void*));"
  line "void *src = sp->as_ptr;"
  fail_when c (Expr.raw "!src || !dst") Handler.err_null
  fmt (Piece.str "memcpy(dst, src, " ∷ Piece.nat (c.ins.word0 * 4) ∷ Piece.str ");" ∷ [])
  line "sp->as_ptr = dst;"

unfoldable pub emit_cpy_v_to_g4 : Ctx → M (Unit {0})
emit_cpy_v_to_g4 c = do
  symbol ← emit_global_lookup c c.ins.pword0
  emit_assign_ins (Expr.global_value VarType.u32 symbol) (Expr.frame_var c.ins.sword0 VarType.u32)

unfoldable pub emit_cpy_g_to_v4 : Ctx → M (Unit {0})
emit_cpy_g_to_v4 c = do
  symbol ← emit_global_lookup c c.ins.pword0
  emit_assign_ins (Expr.frame_var c.ins.sword0 VarType.u32) (Expr.global_value VarType.u32 symbol)

unfoldable pub emit_ldv : Ctx → M (Unit {0})
emit_ldv c = emit_assign_ins Expr.value_reg (Expr.cast VarType.pword (Expr.frame_ptr c.ins.sword0))

-- The value stands behind the address, which takes two dwords.
unfoldable pub emit_set_g4 : Ctx → M (Unit {0})
emit_set_g4 c = do
  symbol ← emit_global_lookup c c.ins.pword0
  emit_assign_ins (Expr.global_value VarType.u32 symbol) (Expr.number (pos (c.ins.dword 2)))

unfoldable pub emit_ldg : Ctx → M (Unit {0})
emit_ldg c = do
  symbol ← emit_global_lookup c c.ins.pword0
  emit (Stmt.assign Expr.value_reg (Expr.cast VarType.pword (Expr.global_address symbol)))

unfoldable pub emit_getobj : Ctx → M (Unit {0})
emit_getobj c = do
  fmt (
      Piece.str "asPWORD *a = &"
      ∷ Piece.ex (Expr.stack_var c.ins.word0 VarType.pword)
      ∷ Piece.str ";"
      ∷ [])
  line "asPWORD offset = *a;"
  line "asPWORD *v = &((asea_var*)((asDWORD*)fp - offset))->as_asPWORD;"
  line "*a = *v;"
  line "*v = 0;"

unfoldable pub emit_getobjref : Ctx → M (Unit {0})
emit_getobjref c = do
  fmt (
      Piece.str "asPWORD *obj = &"
      ∷ Piece.ex (Expr.stack_var c.ins.word0 VarType.pword)
      ∷ Piece.str ";"
      ∷ [])
  emit_assign_ins (Expr.stack_var c.ins.word0 VarType.pword)
      (Expr.raw "((asea_var*)((asDWORD*)fp - *obj))->as_asPWORD")

unfoldable pub emit_getref : Ctx → M (Unit {0})
emit_getref c = do
  fmt (
      Piece.str "asPWORD *var_idx = &"
      ∷ Piece.ex (Expr.stack_var c.ins.word0 VarType.pword)
      ∷ Piece.str ";"
      ∷ [])
  emit_assign_ins (Expr.stack_var c.ins.word0 VarType.pword)
      (Expr.raw "(asPWORD)((asea_var*)((asDWORD*)fp - (int)*var_idx))")

abbrev load_member : Ctx → ℤ → ℤ → M (Unit {0})
load_member c variable member = do
  fmt (
      Piece.str "asPWORD base = "
      ∷ Piece.ex (Expr.frame_var variable VarType.pword)
      ∷ Piece.str ";"
      ∷ [])
  fail_when c (Expr.raw "base == 0") Handler.err_null
  fmt (Piece.str "value_reg = base + " ∷ Piece.int member ∷ Piece.str ";" ∷ [])

unfoldable pub emit_load_r_obj_r : Ctx → M (Unit {0})
emit_load_r_obj_r c = load_member c c.ins.sword0 c.ins.sword1

unfoldable pub emit_load_v_obj_r : Ctx → M (Unit {0})
emit_load_v_obj_r c = fmt (
    Piece.str "value_reg = (asPWORD)"
    ∷ Piece.ex (Expr.frame_ptr c.ins.sword0)
    ∷ Piece.str " + "
    ∷ Piece.int c.ins.sword1
    ∷ Piece.str ";"
    ∷ [])

unfoldable pub emit_load_this_r : Ctx → M (Unit {0})
emit_load_this_r c = load_member c (pos 0) c.ins.sword0

-- WRTV: the variable is written where the value register points to; RDR reads it back. A byte
-- or a word is widened to the dword of the variable.
unfoldable pub emit_wrtv : Ctx → VarType → M (Unit {0})
emit_wrtv c t = emit_assign_ins (Expr.reg_deref t) (Expr.frame_var c.ins.sword0 t)

unfoldable pub emit_rdr_narrow : Ctx → VarType → M (Unit {0})
emit_rdr_narrow c t = emit_assign_ins (Expr.frame_var c.ins.sword0 VarType.u32) (Expr.reg_deref t)

unfoldable pub emit_rdr : Ctx → VarType → M (Unit {0})
emit_rdr c t = emit_assign_ins (Expr.frame_var c.ins.sword0 t) (Expr.reg_deref t)

unfoldable pub emit_cast : Ctx → M (Unit {0})
emit_cast c = do
  line "asCScriptObject** h = (asCScriptObject**)sp->as_ptr;"
  fmt (
      Piece.str "if (h && *h) { asea_cast(_regs, *h, "
      ∷ Piece.nat (c.ins.dword 0)
      ∷ Piece.str "); }"
      ∷ [])
  line "sp = (asea_var*)((char*)sp + sizeof(asPWORD));"

unfoldable pub emit_not : Ctx → M (Unit {0})
emit_not c = do
  fmt (Piece.str "asea_var *var = " ∷ Piece.ex (Expr.frame_ptr c.ins.sword0) ∷ Piece.str ";" ∷ [])
  line "asDWORD value = var->as_asBYTE;"
  line "var->as_asDWORD = 0;"
  line "var->as_asBYTE = !value;"

unfoldable pub emit_adds_i : Ctx → M (Unit {0})
emit_adds_i c = do
  fail_when c (Expr.raw "sp->as_asPWORD == 0") Handler.err_null
  fmt (Piece.str "sp->as_asPWORD += " ∷ Piece.int c.ins.sword0 ∷ Piece.str ";" ∷ [])
