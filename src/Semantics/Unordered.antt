-- ===== src/Semantics/Unordered.antt =====
-- The comparison and jump instructions on integers, whose values are always ordered, and on
-- floats of which one is a NaN: emit_compare, the conditional jumps and FusedCompareJump of
-- src/angelsea/detail/bytecode2c.cpp.
use angelsea.Common.{
  ℕ, ℤ, pos, ltbℤ, ◌==ℤ◌, ltb, ◌==◌, true, false, ◌≡◌, refl, ◌∙◌, none, some, inl, inr, arith,
  Bool-cases, if◌then◌else◌,
}
use angelsea.Bytecode.VarType.{VarType}
use angelsea.Bytecode.Ins.{Comparison, Operand, cond_expr, target_offset}
use angelsea.Translate.CCode.{Name, BinOp, Expr, Stmt}
use angelsea.Translate.State.{VirtualInstruction, Ctx, FnState}
use angelsea.Translate.Emit.{emit_compare}
use angelsea.Translate.Control.{emit_conditional_jump}
use angelsea.Translate.Instruction.{translate_virtual}
use angelsea.Semantics.Machine.{Floats, Value, int, Machine, value_lt, value_eq, continue, exec}
use angelsea.Semantics.Locals.{code_of, operand_value}
use angelsea.Semantics.Fused.{Ordered, less, equal, greater, goes, sign, operands-run, jump-code}

module _ (fl : Floats) where
  by_order-Ordered :
      (a b : ℤ) (p q : ℕ)
      → ltbℤ a b ≡ ltb p q
      → (a ==ℤ b) ≡ (p == q)
      → ltbℤ b a ≡ ltb q p
      → Ordered fl (int a) (int b)
  by_order-Ordered a b p q u v w = elim (Bool-cases (ltb p q)) [
    | inl h ↦
        let e : (p == q) ≡ false = ground arith in
        let g : ltb q p ≡ false = ground arith in less (u ∙ h) (v ∙ e) (w ∙ g)
    | inr h ↦ elim (Bool-cases (ltb q p)) [
      | inl g ↦ let e : (p == q) ≡ false = ground arith in greater (u ∙ h) (v ∙ e) (w ∙ g)
      | inr g ↦ let e : (p == q) ≡ true = ground arith in equal (u ∙ h) (v ∙ e) (w ∙ g)
    ]
  ]

  -- Integers are ordered.
  pub int-Ordered : (a b : ℤ) → Ordered fl (int a) (int b)
  int-Ordered a b = by_order-Ordered a b _ _ refl refl refl

  -- A comparison with a NaN: the code of the comparison leaves 0, so that a jump on equality is
  -- taken behind it, while the fused instruction falls through.
  pub fused_compare_jump-unordered :
      (c d : Ctx) (l r : Operand) (n : ℕ) (s₁ s₂ s₃ : FnState) (m : Machine fl) (a b : Value fl)
      → cond_expr d.ins.opcode ≡ some (VarType.s32, Comparison.eq)
      → target_offset d.ins ≡ pos n
      → operand_value fl m l ≡ some a
      → operand_value fl m r ≡ some b
      → value_lt fl a b ≡ false
      → value_eq fl a b ≡ false
      → value_lt fl b a ≡ false
      → (goes fl (
            exec fl
              (code_of
                (translate_virtual d (
                  VirtualInstruction.fused_compare_jump (l, r) Comparison.eq (target_offset d.ins)))
                s₃)
              m)
          ≡ some none)
        × (goes fl (
              continue fl
                (exec fl (code_of (emit_compare c (l, r)) s₁) m)
                (exec fl (code_of (emit_conditional_jump d) s₂)))
            ≡ some (some (pos n)))
  unfolding translate_virtual emit_compare
  fused_compare_jump-unordered c d l r n s₁ s₂ s₃ m a b e g p q lt eq gt = (
    rw
        (
          g,
          operands-run fl d l r
              (Stmt.branch
                (Expr.binary (BinOp.test Comparison.eq) (Expr.local_var Name.lhs)
                  (Expr.local_var Name.rhs))
                (if d.config.use_builtin_expect
                  then some (ltbℤ (pos n) (pos d.ins.offset))
                  else none)
                (pos n))
              s₃ m a b p q,
          eq,
        )
        refl,
    rw
        (
          operands-run fl c l r (sign fl) s₁ m a b p q,
          jump-code fl d s₂ VarType.s32 Comparison.eq n e g,
          lt,
          gt,
        )
        refl,
  )
