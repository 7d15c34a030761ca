-- ===== src/Semantics/Fused.antt =====
-- The peephole optimisation of a comparison with the jump behind it: FusedCompareJump of
-- translate_instruction against emit_compare and the conditional jumps, in
-- src/angelsea/detail/bytecode2c.cpp.
use angelsea.Common.{
  ℕ, ℤ, pos, ltbℤ, ltb, Bool, true, false, ◌≡◌, refl, Option, none, some, [], ◌∷◌, ◌⊎◌, inl, inr,
  Bool-cases, if◌then◌else◌,
}
use angelsea.Bytecode.Opcode.{Opcode}
use angelsea.Bytecode.VarType.{VarType}
use angelsea.Bytecode.Ins.{Comparison, Operand, cond_expr, target_offset}
use angelsea.Translate.CCode.{Name, BinOp, Expr, Stmt}
use angelsea.Translate.State.{VirtualInstruction, Ctx, FnState, ◌>>=◌, emit}
use angelsea.Translate.Emit.{make_local_from_operand, emit_compare, emit_cond_branch}
use angelsea.Translate.Control.{emit_conditional_jump}
use angelsea.Translate.Instruction.{translate_virtual}
use angelsea.Semantics.Machine.{
  Floats, Value, Machine, value_lt, value_eq, compare_values, Outcome, exec_stmt, continue, exec,
}
use angelsea.Semantics.Locals.{code_of, operand_value, make_local-declares, with_operands}

-- The conditions of the conditional jumps.
abbrev SignTest : VarType → Comparison → Type 0
SignTest t op = (t ≡ VarType.s32) ⊎ (t ≡ VarType.u8) × ((op ≡ Comparison.eq) ⊎ (op ≡ Comparison.ne))

cond_expr-SignTest :
    (o : Opcode) (t : VarType) (op : Comparison) → cond_expr o ≡ some (t, op) → SignTest t op
unfolding cond_expr
cond_expr-SignTest Opcode.j_low_z t op h = inr (cc h, inl (cc h))
cond_expr-SignTest Opcode.j_low_nz t op h = inr (cc h, inr (cc h))
cond_expr-SignTest Opcode.jz t op h = inl (cc h)
cond_expr-SignTest Opcode.jnz t op h = inl (cc h)
cond_expr-SignTest Opcode.js t op h = inl (cc h)
cond_expr-SignTest Opcode.jns t op h = inl (cc h)
cond_expr-SignTest Opcode.jp t op h = inl (cc h)
cond_expr-SignTest Opcode.jnp t op h = inl (cc h)
cond_expr-SignTest _ t op h = absurd (cc h)

module _ (fl : Floats) where
  -- Exactly one of less, equal and greater holds: all values but those of a NaN.
  pub data Ordered (a b : Value fl) : Type 0 where
    less : value_lt fl a b ≡ true → value_eq fl a b ≡ false → value_lt fl b a ≡ false → Ordered a b
    equal : value_lt fl a b ≡ false → value_eq fl a b ≡ true → value_lt fl b a ≡ false → Ordered a b
    greater :
        value_lt fl a b ≡ false → value_eq fl a b ≡ false → value_lt fl b a ≡ true → Ordered a b

  -- Where a run of statements goes: a label, or on to the next instruction.
  abbrev pub goes : Outcome fl → Option (Option ℤ)
  goes (Outcome.falls m) = some none
  goes (Outcome.jumps t m) = some (some t)
  goes _ = none

  pub operands-run :
      (c : Ctx) (l r : Operand) (st : Stmt) (s : FnState) (m : Machine fl) (a b : Value fl)
      → operand_value fl m l ≡ some a
      → operand_value fl m r ≡ some b
      → exec fl
          (code_of
            (make_local_from_operand c Name.lhs l
              >>= (λ _. make_local_from_operand c Name.rhs r >>= (λ _. emit st)))
            s)
          m
        ≡ continue fl (exec_stmt fl st (with_operands fl m a b)) (exec fl [])
  unfolding ◌>>=◌ emit
  operands-run c l r st s m a b p q =
      let (t, e, code, value, _) =
        make_local-declares fl c Name.lhs l (record s { code = [] }) m a p in
      let (u, f, code', _, value') =
        make_local-declares fl c Name.rhs r (record s { code = Stmt.declare t Name.lhs e ∷ [] }) m b
          q in
      rw (code, code', value, value' Name.lhs a) refl

  pub jump-code :
      (c : Ctx) (s : FnState) (t : VarType) (op : Comparison) (n : ℕ)
      → cond_expr c.ins.opcode ≡ some (t, op)
      → target_offset c.ins ≡ pos n
      → code_of (emit_conditional_jump c) s
        ≡ Stmt.branch
            (Expr.binary (BinOp.test op) (Expr.cast t Expr.value_reg) (Expr.number (pos 0)))
            (if c.config.use_builtin_expect then some (ltb n c.ins.offset) else none)
            (pos n)
          ∷ []
  unfolding emit_conditional_jump emit_cond_branch emit
  jump-code c s t op n e q = rw (emit_conditional_jump, e, q) refl

  -- The code of emit_compare behind the two declarations.
  abbrev pub sign : Stmt
  sign = Stmt.assign Expr.value_reg (
      Expr.binary BinOp.sub
        (Expr.binary (BinOp.test Comparison.gt) (Expr.local_var Name.lhs) (Expr.local_var Name.rhs))
        (Expr.binary (BinOp.test Comparison.lt) (Expr.local_var Name.lhs)
          (Expr.local_var Name.rhs)))

  abbrev jump_on : VarType → Comparison → Option Bool → ℕ → Stmt
  jump_on t op expect n =
      Stmt.branch (Expr.binary (BinOp.test op) (Expr.cast t Expr.value_reg) (Expr.number (pos 0)))
        expect (pos n)

  -- Where the sign and the jump on it lead.
  abbrev sign_goes : Machine fl → VarType → Comparison → Option Bool → ℕ → Option (Option ℤ)
  sign_goes m t op expect n = goes (
      continue fl (continue fl (exec_stmt fl sign m) (exec fl []))
        (exec fl (jump_on t op expect n ∷ [])))

  abbrev answer : Comparison → Value fl → Value fl → ℕ → Option (Option ℤ)
  answer op a b n = some (if compare_values fl op a b then some (pos n) else none)

  sign_goes-s32 :
      (m : Machine fl) (a b : Value fl) (op : Comparison) (e : Option Bool) (n : ℕ)
      → Ordered a b
      → sign_goes (with_operands fl m a b) VarType.s32 op e n ≡ answer op a b n
  sign_goes-s32 m a b Comparison.eq e n (Ordered.less p q r) = rw (p, r, q) refl
  sign_goes-s32 m a b Comparison.eq e n (Ordered.equal p q r) = rw (p, r, q) refl
  sign_goes-s32 m a b Comparison.eq e n (Ordered.greater p q r) = rw (p, r, q) refl
  sign_goes-s32 m a b Comparison.ne e n (Ordered.less p q r) = rw (p, r, q) refl
  sign_goes-s32 m a b Comparison.ne e n (Ordered.equal p q r) = rw (p, r, q) refl
  sign_goes-s32 m a b Comparison.ne e n (Ordered.greater p q r) = rw (p, r, q) refl
  sign_goes-s32 m a b Comparison.lt e n (Ordered.less p q r) = rw (p, r) refl
  sign_goes-s32 m a b Comparison.lt e n (Ordered.equal p q r) = rw (p, r) refl
  sign_goes-s32 m a b Comparison.lt e n (Ordered.greater p q r) = rw (p, r) refl
  sign_goes-s32 m a b Comparison.ge e n (Ordered.less p q r) = rw (p, r, q) refl
  sign_goes-s32 m a b Comparison.ge e n (Ordered.equal p q r) = rw (p, r, q) refl
  sign_goes-s32 m a b Comparison.ge e n (Ordered.greater p q r) = rw (p, r) refl
  sign_goes-s32 m a b Comparison.gt e n (Ordered.less p q r) = rw (p, r) refl
  sign_goes-s32 m a b Comparison.gt e n (Ordered.equal p q r) = rw (p, r) refl
  sign_goes-s32 m a b Comparison.gt e n (Ordered.greater p q r) = rw (p, r) refl
  sign_goes-s32 m a b Comparison.le e n (Ordered.less p q r) = rw (p, r) refl
  sign_goes-s32 m a b Comparison.le e n (Ordered.equal p q r) = rw (p, r, q) refl
  sign_goes-s32 m a b Comparison.le e n (Ordered.greater p q r) = rw (p, r, q) refl

  sign_goes-SignTest :
      (m : Machine fl) (a b : Value fl) (t : VarType) (op : Comparison) (e : Option Bool) (n : ℕ)
      → SignTest t op
      → Ordered a b
      → sign_goes (with_operands fl m a b) t op e n ≡ answer op a b n
  sign_goes-SignTest m a b t op e n (inl k) o = rw k (sign_goes-s32 m a b op e n o)
  sign_goes-SignTest m a b t op e n (inr (k, inl j)) (Ordered.less p q r) = rw (k, j, p, q, r) refl
  sign_goes-SignTest m a b t op e n (inr (k, inl j)) (Ordered.equal p q r) = rw (k, j, p, q, r) refl
  sign_goes-SignTest m a b t op e n (inr (k, inl j)) (Ordered.greater p q r) =
      rw (k, j, p, q, r) refl
  sign_goes-SignTest m a b t op e n (inr (k, inr j)) (Ordered.less p q r) = rw (k, j, p, q, r) refl
  sign_goes-SignTest m a b t op e n (inr (k, inr j)) (Ordered.equal p q r) = rw (k, j, p, q, r) refl
  sign_goes-SignTest m a b t op e n (inr (k, inr j)) (Ordered.greater p q r) =
      rw (k, j, p, q, r) refl

  pub fused-goes :
      (m : Machine fl) (a b : Value fl) (op : Comparison) (e : Option Bool) (n : ℕ)
      → goes (
          continue fl
            (exec_stmt fl
              (Stmt.branch
                (Expr.binary (BinOp.test op) (Expr.local_var Name.lhs) (Expr.local_var Name.rhs))
                e
                (pos n))
              (with_operands fl m a b))
            (exec fl []))
        ≡ answer op a b n
  fused-goes m a b op e n = elim (Bool-cases (compare_values fl op a b)) [
    | inl h ↦ rw h refl
    | inr h ↦ rw h refl
  ]

  -- For a comparison of two operands with ordered values and the conditional jump behind it: the
  -- fused instruction, and the code of the comparison followed by that of the jump, both jump to
  -- the target if the jump's test holds of the values, and both fall through otherwise.
  pub fused_compare_jump-agrees :
      (c d : Ctx) (l r : Operand) (t : VarType) (op : Comparison) (n : ℕ)
      → (s₁ s₂ s₃ : FnState) (m : Machine fl) (a b : Value fl)
      → cond_expr d.ins.opcode ≡ some (t, op)
      → target_offset d.ins ≡ pos n
      → operand_value fl m l ≡ some a
      → operand_value fl m r ≡ some b
      → Ordered a b
      → (goes (
            exec fl
              (code_of
                (translate_virtual d
                  (VirtualInstruction.fused_compare_jump (l, r) op (target_offset d.ins)))
                s₃)
              m)
          ≡ some (if compare_values fl op a b then some (pos n) else none))
        × (goes (
              continue fl
                (exec fl (code_of (emit_compare c (l, r)) s₁) m)
                (exec fl (code_of (emit_conditional_jump d) s₂)))
            ≡ some (if compare_values fl op a b then some (pos n) else none))
  unfolding translate_virtual emit_compare
  fused_compare_jump-agrees c d l r t op n s₁ s₂ s₃ m a b e g p q o = (
    rw
        (
          g,
          operands-run d l r
              (Stmt.branch
                (Expr.binary (BinOp.test op) (Expr.local_var Name.lhs) (Expr.local_var Name.rhs))
                (if d.config.use_builtin_expect
                  then some (ltbℤ (pos n) (pos d.ins.offset))
                  else none)
                (pos n))
              s₃ m a b p q,
        )
        (fused-goes m a b op none n),
    rw (operands-run c l r sign s₁ m a b p q, jump-code d s₂ t op n e g)
        (sign_goes-SignTest m a b t op none n (cond_expr-SignTest d.ins.opcode t op e) o),
  )
