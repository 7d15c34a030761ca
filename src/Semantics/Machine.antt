-- ===== src/Semantics/Machine.antt =====
-- An interpreter of generated C code over the locals, the value register and the frame. The
-- frame is a function that gives the value of a variable read at a type, integers are exact, and
-- floats are a type with its comparisons, which stand for those of the machine.
use angelsea.Common.{
  ℕ, zero, suc, ◌-◌, ◌%◌, ◌^◌, ℤ, pos, negsuc, ltbℤ, ◌==ℤ◌, Bool, true, false, ◌&&◌, ◌||◌, not,
  Option, none, some, List, [], ◌∷◌, ◌==◌, ltb, if◌then◌else◌,
}
use angelsea.Bytecode.VarType.{VarType}
use angelsea.Bytecode.Ins.{Comparison}
use angelsea.Translate.CCode.{Handler, Name, BinOp, Expr, Stmt}

-- Floats: a type with `<` and `==`. Two floats may be unordered.
pub record Floats : Type 1 where
  pub F : Type 0
  pub flt : F → F → Bool
  pub feq : F → F → Bool
  pub of_bits : ℕ → F

-- `asINT32` of a 64-bit pattern: the low 32 bits, in two's complement.
abbrev pub to_s32 : ℕ → ℤ
to_s32 n = let m = n % 2 ^ 32 in if ltb m (2 ^ 31) then pos m else negsuc (2 ^ 32 - 1 - m)

abbrev pub to_s64 : ℕ → ℤ
to_s64 n = let m = n % 2 ^ 64 in if ltb m (2 ^ 63) then pos m else negsuc (2 ^ 64 - 1 - m)

-- `(type)z`. At the other types the emitted constants are in range.
abbrev pub cast_imm : VarType → ℤ → ℤ
cast_imm VarType.s32 (pos n) = to_s32 n
cast_imm VarType.s64 (pos n) = to_s64 n
cast_imm _ z = z

-- The 64-bit pattern of a C integer that is stored in the value register.
abbrev pub to_u64 : ℤ → ℕ
to_u64 (pos n) = n % 2 ^ 64
to_u64 (negsuc n) = 2 ^ 64 - 1 - n % 2 ^ 64

abbrev pub same_name : Name → Name → Bool
same_name Name.lhs Name.lhs = true
same_name Name.rhs Name.rhs = true
same_name Name.divider Name.divider = true
same_name Name.v Name.v = true
same_name Name.value Name.value = true
same_name (Name.push_tmp a) (Name.push_tmp b) = a == b
same_name _ _ = false

module _ (fl : Floats) where
  pub data Value : Type 0 where
    int : ℤ → Value
    real : fl.F → Value

  abbrev pub value_lt : Value → Value → Bool
  value_lt (int a) (int b) = ltbℤ a b
  value_lt (real a) (real b) = fl.flt a b
  value_lt _ _ = false

  abbrev pub value_eq : Value → Value → Bool
  value_eq (int a) (int b) = a ==ℤ b
  value_eq (real a) (real b) = fl.feq a b
  value_eq _ _ = false

  abbrev pub compare_values : Comparison → Value → Value → Bool
  compare_values Comparison.eq a b = value_eq a b
  compare_values Comparison.ne a b = not (value_eq a b)
  compare_values Comparison.lt a b = value_lt a b
  compare_values Comparison.ge a b = value_lt b a || value_eq a b
  compare_values Comparison.gt a b = value_lt b a
  compare_values Comparison.le a b = value_lt a b || value_eq a b

  -- The frame may be read, and the generated code writes whole variables.
  pub record Machine : Type 0 where
    pub value_reg : ℕ
    pub frame : ℤ → VarType → Value
    pub locals : Name → Option Value

  abbrev pub of_bool : Bool → Value
  of_bool true = int (pos 1)
  of_bool false = int (pos 0)

  -- `(type)value_reg` at the types that jumps and tests use.
  abbrev cast_reg : VarType → ℕ → Option Value
  cast_reg VarType.s32 n = some (int (to_s32 n))
  cast_reg VarType.u8 n = some (int (pos (n % 256)))
  cast_reg _ n = none

  -- `a - b` of two truth values.
  abbrev pub sub_values : Value → Value → Option Value
  sub_values (int (pos zero)) (int (pos zero)) = some (int (pos 0))
  sub_values (int (pos (suc zero))) (int (pos zero)) = some (int (pos 1))
  sub_values (int (pos zero)) (int (pos (suc zero))) = some (int (negsuc 0))
  sub_values (int (pos (suc zero))) (int (pos (suc zero))) = some (int (pos 0))
  sub_values _ _ = none

  abbrev lift₂ : (Value → Value → Option Value) → Option Value → Option Value → Option Value
  lift₂ f (some a) (some b) = f a b
  lift₂ f _ _ = none

  abbrev truth : Value → Bool
  truth (int z) = not (z ==ℤ pos 0)
  truth (real x) = true

  abbrev lift_truth : Option Value → Option Value
  lift_truth (some v) = some (of_bool (truth v))
  lift_truth none = none

  -- The value of an expression; `none` for what is not interpreted.
  abbrev pub eval : Machine → Expr → Option Value
  eval m Expr.value_reg = some (int (pos m.value_reg))
  eval m (Expr.frame_var off t) = some (m.frame off t)
  eval m (Expr.local_var x) = m.locals x
  eval m (Expr.imm t z) = some (int (cast_imm t z))
  eval m (Expr.number z) = some (int z)
  eval m (Expr.float_bits n) = some (real (fl.of_bits n))
  eval m (Expr.cast t Expr.value_reg) = cast_reg t m.value_reg
  eval m (Expr.binary BinOp.sub a b) = lift₂ sub_values (eval m a) (eval m b)
  eval m (Expr.binary (BinOp.test op) a b) =
      lift₂ (λ x y. some (of_bool (compare_values op x y))) (eval m a) (eval m b)
  eval m (Expr.both a b) = lift₂ (λ x y. some (of_bool (truth x && truth y))) (eval m a) (eval m b)
  eval m (Expr.select e) = lift_truth (eval m e)
  eval m _ = none

  -- How a run of statements ends: behind the last one, at a label, in an error handler with
  -- the offset that `regs->pc` is set to, at a statement that is not interpreted, or at an
  -- expression that is not.
  pub data Outcome : Type 0 where
    falls : Machine → Outcome
    jumps : ℤ → Machine → Outcome
    fails : Handler → ℕ → Machine → Outcome
    stops : Stmt → Machine → Outcome
    stuck : Outcome

  abbrev pub bind_local : Name → Value → Machine → Machine
  bind_local x v m = record m { locals = λ y. if same_name y x then some v else m.locals y }

  abbrev then_bind : Name → Machine → Option Value → Outcome
  then_bind x m (some v) = falls (bind_local x v m)
  then_bind x m none = stuck

  abbrev pub then_store : Machine → Option Value → Outcome
  then_store m (some (int z)) = falls (record m { value_reg = to_u64 z })
  then_store m _ = stuck

  abbrev pub then_test : Outcome → Machine → Option Value → Outcome
  then_test o m (some v) = if truth v then o else falls m
  then_test o m none = stuck

  -- One statement. A write to a variable is not followed here.
  abbrev pub exec_stmt : Stmt → Machine → Outcome
  exec_stmt (Stmt.declare t x e) m = then_bind x m (eval m e)
  exec_stmt (Stmt.assign Expr.value_reg e) m = then_store m (eval m e)
  exec_stmt (Stmt.fail_if e n h) m = then_test (fails h n m) m (eval m e)
  exec_stmt (Stmt.jump_handler n h) m = fails h n m
  exec_stmt (Stmt.goto_bc t) m = jumps t m
  exec_stmt (Stmt.branch e expect t) m = then_test (jumps t m) m (eval m e)
  exec_stmt st m = stops st m

  abbrev pub continue : Outcome → (Machine → Outcome) → Outcome
  continue (falls m) k = k m
  continue (jumps t m) k = jumps t m
  continue (fails h n m) k = fails h n m
  continue (stops st m) k = stops st m
  continue stuck k = stuck

  abbrev pub exec : List Stmt → Machine → Outcome
  exec [] m = falls m
  exec (st ∷ rest) m = continue (exec_stmt st m) (exec rest)
