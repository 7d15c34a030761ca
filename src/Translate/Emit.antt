-- ===== src/Translate/Emit.antt =====
-- The emitting functions that the instructions share: make_local_from_operand of
-- include/angelsea/detail/bytecode2c.hpp and the emit_… members of
-- src/angelsea/detail/bytecode2c.cpp.
use angelsea.Common.{
  ℕ, ◌+◌, pos, Bool, true, false, String, none, some, List, [], ◌∷◌, ltb, if◌then◌else◌, lookup,
}
use angelsea.Bytecode.VarType.{VarType, size_of, is_pointer, var_accessor}
use angelsea.Bytecode.Ins.{Operand, Comparison}
use angelsea.Translate.CCode.{Name, Symbol, BinOp, Expr, Piece, Stmt, Forward}
use angelsea.Translate.State.{
  Ctx, ExternKind, M, ◌>>=◌, ◌>>◌, pure, emit, emit_forward_declaration, map_extern,
  next_string_constant, next_type_info,
}

abbrev pub line : String → M (Unit {0})
line s = emit (Stmt.text (Piece.str s ∷ []))

-- A global variable by the id of its property, else a string constant by a running number.
unfoldable pub emit_global_lookup : Ctx → ℕ → M Symbol
emit_global_lookup c pointer = elim (c.engine.global_id pointer) [
  | some id ↦ do
    map_extern (Symbol.global_symbol id) ExternKind.extern_global
    emit_forward_declaration (Symbol.global_symbol id)
        (Forward.extern_pointer (Symbol.global_symbol id))
    pure (Symbol.global_symbol id)
  | none ↦ do
    idx ← next_string_constant
    map_extern (Symbol.string_symbol idx) ExternKind.extern_string
    emit_forward_declaration (Symbol.string_symbol idx)
        (Forward.extern_pointer (Symbol.string_symbol idx))
    pure (Symbol.string_symbol idx)
]

unfoldable pub emit_type_info_lookup : M Symbol
emit_type_info_lookup = do
  idx ← next_type_info
  emit_forward_declaration (Symbol.type_info_symbol idx)
      (Forward.extern_bytes (Symbol.type_info_symbol idx))
  map_extern (Symbol.type_info_symbol idx) ExternKind.extern_type_info
  pure (Symbol.type_info_symbol idx)

-- Declares a local of the operand's value, and returns its type.
unfoldable pub make_local_from_operand : Ctx → Name → Operand → M VarType
make_local_from_operand c x (Operand.imm_dword n) = do
  emit (Stmt.declare VarType.u32 x (Expr.imm VarType.u32 (pos n)))
  pure VarType.u32
make_local_from_operand c x (Operand.imm_qword n) = do
  emit (Stmt.declare VarType.u64 x (Expr.imm VarType.u64 (pos n)))
  pure VarType.u64
make_local_from_operand c x (Operand.imm_int z) = do
  emit (Stmt.declare VarType.s32 x (Expr.imm VarType.s32 z))
  pure VarType.s32
make_local_from_operand c x (Operand.imm_float bits) = do
  emit (Stmt.declare VarType.f32 x (Expr.float_bits bits))
  pure VarType.f32
make_local_from_operand c x (Operand.frame_variable idx t) = do
  emit (Stmt.declare t x (Expr.frame_var idx t))
  pure t
make_local_from_operand c x (Operand.frame_variable_pointer idx) = do
  emit (Stmt.declare VarType.void_ptr x (Expr.frame_ptr idx))
  pure VarType.void_ptr
make_local_from_operand c x (Operand.global_variable ptr t can_refer_to_str true) = do
  symbol ← emit_global_lookup c ptr
  emit (Stmt.declare t x (Expr.global_value t symbol))
  pure t
make_local_from_operand c x (Operand.global_variable ptr t can_refer_to_str false) = do
  symbol ← emit_global_lookup c ptr
  emit (Stmt.declare VarType.void_ptr x (Expr.global_address symbol))
  pure VarType.void_ptr
make_local_from_operand c x (Operand.object_type ptr) = do
  symbol ← emit_type_info_lookup
  emit (Stmt.declare VarType.void_ptr x (Expr.global_address symbol))
  pure VarType.void_ptr
make_local_from_operand c x (Operand.value_register t) = do
  emit (Stmt.declare t x Expr.value_reg)
  pure t

-- Makes room for the value on the stack and writes it there.
unfoldable pub emit_stack_push : Expr → VarType → M (Unit {0})
emit_stack_push e t = do
  emit (
      if is_pointer t
      then Stmt.text (Piece.str "sp = (asea_var*)((char*)sp - sizeof(asPWORD));" ∷ [])
      else Stmt.text
          (Piece.str "sp = (asea_var*)((char*)sp - " ∷ Piece.nat (size_of t) ∷ Piece.str ");" ∷ []))
  emit (
      Stmt.text (
        Piece.str "sp->as_"
        ∷ Piece.str (var_accessor t)
        ∷ Piece.str " = "
        ∷ Piece.ex e
        ∷ Piece.str ";"
        ∷ []))

-- A push that a later call takes over goes to its temporary, any other to the stack.
unfoldable pub store_push : Ctx → VarType → M (Unit {0})
store_push c t = elim (lookup c.ins.offset c.found.stack_push_infos) [
  | some _ ↦
      emit (Stmt.assign (Expr.local_var (Name.push_tmp c.ins.offset)) (Expr.local_var Name.v))
  | none ↦ emit_stack_push (Expr.local_var Name.v) t
]

unfoldable pub emit_stack_push_ins : Ctx → Operand → M (Unit {0})
emit_stack_push_ins c operand = do t ← make_local_from_operand c Name.v operand; store_push c t

-- The pushes given by their offsets go back to the stack, in order.
unfoldable pub flush_pushes : Ctx → List ℕ → M (Unit {0})
flush_pushes c [] = pure tt
flush_pushes c (push_off ∷ rest) = do
  elim (lookup push_off c.found.stack_push_infos) [
    | none ↦ pure tt
    | some t ↦ emit_stack_push (Expr.local_var (Name.push_tmp push_off)) t
  ]
  flush_pushes c rest

unfoldable pub flush_stack_push_optimization : Ctx → M (Unit {0})
flush_stack_push_optimization c = elim (lookup c.ins.offset c.found.fn_to_stack_push) [
  | none ↦ pure tt
  | some pushes ↦ flush_pushes c pushes
]

unfoldable pub emit_save_sp : M (Unit {0})
emit_save_sp = line "regs->sp = sp;"

unfoldable pub emit_save_pc : Ctx → Bool → M (Unit {0})
emit_save_pc c next_pc = emit (
    Stmt.text (
      Piece.str "regs->pc = base_pc + "
      ∷ Piece.nat (c.ins.offset + (if next_pc then c.ins.size else 0))
      ∷ Piece.str ";"
      ∷ []))

unfoldable pub emit_assign_ins : Expr → Expr → M (Unit {0})
emit_assign_ins dst src = emit (Stmt.assign dst src)

-- A branch backwards is expected to be taken.
unfoldable pub emit_cond_branch : Ctx → Expr → ℕ → M (Unit {0})
emit_cond_branch c test target = emit (
    Stmt.branch test (if c.config.use_builtin_expect then some (ltb target c.ins.offset) else none)
      (pos target))

unfoldable pub emit_compare : Ctx → Operand × Operand → M (Unit {0})
emit_compare c (l, r) = do
  _ ← make_local_from_operand c Name.lhs l
  _ ← make_local_from_operand c Name.rhs r
  emit (
      Stmt.assign Expr.value_reg (
        Expr.binary BinOp.sub
          (Expr.binary (BinOp.test Comparison.gt) (Expr.local_var Name.lhs)
            (Expr.local_var Name.rhs))
          (Expr.binary (BinOp.test Comparison.lt) (Expr.local_var Name.lhs)
            (Expr.local_var Name.rhs))))

unfoldable pub emit_test_ins : Comparison → M (Unit {0})
emit_test_ins op = do
  emit (Stmt.declare VarType.s32 Name.value (Expr.cast VarType.s32 Expr.value_reg))
  emit (
      Stmt.assign Expr.value_reg (
        Expr.select
          (Expr.binary (BinOp.test op) (Expr.local_var Name.value) (Expr.number (pos 0)))))
