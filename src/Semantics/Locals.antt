-- ===== src/Semantics/Locals.antt =====
-- The locals that the code of an instruction starts with: make_local_from_operand of
-- include/angelsea/detail/bytecode2c.hpp, on the operands of comparisons.
use angelsea.Common.{pos, ◌≡◌, refl, Option, none, some, List, [], ◌∷◌, ◌++◌}
use angelsea.Bytecode.VarType.{VarType}
use angelsea.Bytecode.Ins.{Operand}
use angelsea.Translate.CCode.{Name, Expr, Stmt}
use angelsea.Translate.State.{Ctx, FnState, M, ◌>>=◌, ◌>>◌, pure, emit}
use angelsea.Translate.Emit.{make_local_from_operand}
use angelsea.Semantics.Machine.{Floats, Value, int, real, Machine, cast_imm, eval, bind_local}

-- The code that an operation emits.
abbrev pub code_of : {A : Type 0} → M A → FnState → List Stmt
code_of k s = (k (record s { code = [] })).1.code

module _ (fl : Floats) where
  -- The value of an operand of a comparison.
  abbrev pub operand_value : Machine fl → Operand → Option (Value fl)
  operand_value m (Operand.frame_variable idx t) = some (m.frame idx t)
  operand_value m (Operand.imm_int z) = some (int (cast_imm VarType.s32 z))
  operand_value m (Operand.imm_dword n) = some (int (cast_imm VarType.u32 (pos n)))
  operand_value m (Operand.imm_float bits) = some (real (fl.of_bits bits))
  operand_value m _ = none

  -- The local is one declaration, whose expression has the operand's value, also where another
  -- local has been declared before it.
  pub make_local-declares :
      (c : Ctx) (x : Name) (o : Operand) (s : FnState) (m : Machine fl) (v : Value fl)
      → operand_value m o ≡ some v
      → (t : VarType) × (e : Expr) × ((make_local_from_operand c x o s).1
          ≡ record s { code = s.code ++ (Stmt.declare t x e ∷ []) })
        × (eval fl m e ≡ some v)
        × ((y : Name) (w : Value fl) → eval fl (bind_local fl y w m) e ≡ some v)
  unfolding make_local_from_operand ◌>>=◌ ◌>>◌ pure emit
  make_local-declares c x (Operand.frame_variable idx t) s m v h =
      (t, Expr.frame_var idx t, refl, h, λ y w. h)
  make_local-declares c x (Operand.imm_int z) s m v h =
      (VarType.s32, Expr.imm VarType.s32 z, refl, h, λ y w. h)
  make_local-declares c x (Operand.imm_dword n) s m v h =
      (VarType.u32, Expr.imm VarType.u32 (pos n), refl, h, λ y w. h)
  make_local-declares c x (Operand.imm_float bits) s m v h =
      (VarType.f32, Expr.float_bits bits, refl, h, λ y w. h)
  make_local-declares c x (Operand.imm_qword n) s m v h = absurd (cc h)
  make_local-declares c x (Operand.frame_variable_pointer idx) s m v h = absurd (cc h)
  make_local-declares c x (Operand.global_variable ptr t b d) s m v h = absurd (cc h)
  make_local-declares c x (Operand.object_type ptr) s m v h = absurd (cc h)
  make_local-declares c x (Operand.value_register t) s m v h = absurd (cc h)

  -- Two operands, then one more statement: it runs with both locals bound.
  abbrev pub with_operands : Machine fl → Value fl → Value fl → Machine fl
  with_operands m a b = bind_local fl Name.rhs b (bind_local fl Name.lhs a m)
