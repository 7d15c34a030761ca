-- ===== src/Semantics/Compared.antt =====
-- A comparison and the test behind it: emit_compare and emit_test_ins of
-- src/angelsea/detail/bytecode2c.cpp.
use angelsea.Common.{ap, ◌∙◌, some-inj, ℕ, ◌≡◌, refl, Option, none, some, [], if◌then◌else◌}
use angelsea.Bytecode.Opcode.{Opcode}
use angelsea.Bytecode.Ins.{Comparison, Operand}
use angelsea.Translate.State.{Ctx, FnState, ◌>>◌, emit}
use angelsea.Translate.Emit.{emit_compare, emit_test_ins}
use angelsea.Translate.Switch.{translate_opcode}
use angelsea.Semantics.Machine.{
  Floats, Value, Machine, compare_values, Outcome, exec_stmt, continue, exec,
}
use angelsea.Semantics.Locals.{code_of, operand_value, with_operands}
use angelsea.Semantics.Fused.{Ordered, operands-run, sign}

-- What the test instructions of the engine ask of the value register.
abbrev pub tested : Opcode → Option Comparison
tested Opcode.tz = some Comparison.eq
tested Opcode.tnz = some Comparison.ne
tested Opcode.ts = some Comparison.lt
tested Opcode.tns = some Comparison.ge
tested Opcode.tp = some Comparison.gt
tested Opcode.tnp = some Comparison.le
tested _ = none

module _ (fl : Floats) where
  -- The value register where a run of statements falls through.
  abbrev pub value_after : Outcome fl → Option ℕ
  value_after (Outcome.falls m) = some m.value_reg
  value_after _ = none

  abbrev tested_sign : Machine fl → Comparison → FnState → Option ℕ
  tested_sign m op s = value_after (
      continue fl (continue fl (exec_stmt fl (sign fl) m) (exec fl []))
        (exec fl (code_of (emit_test_ins op) s)))

  abbrev flag : Comparison → Value fl → Value fl → Option ℕ
  flag op a b = some (if compare_values fl op a b then 1 else 0)

  tested_sign-flag :
      (m : Machine fl) (a b : Value fl) (op : Comparison) (s : FnState)
      → Ordered fl a b
      → tested_sign (with_operands fl m a b) op s ≡ flag op a b
  unfolding emit_test_ins ◌>>◌ emit
  tested_sign-flag m a b Comparison.eq s (Ordered.less p q r) = rw (p, r, q) refl
  tested_sign-flag m a b Comparison.eq s (Ordered.equal p q r) = rw (p, r, q) refl
  tested_sign-flag m a b Comparison.eq s (Ordered.greater p q r) = rw (p, r, q) refl
  tested_sign-flag m a b Comparison.ne s (Ordered.less p q r) = rw (p, r, q) refl
  tested_sign-flag m a b Comparison.ne s (Ordered.equal p q r) = rw (p, r, q) refl
  tested_sign-flag m a b Comparison.ne s (Ordered.greater p q r) = rw (p, r, q) refl
  tested_sign-flag m a b Comparison.lt s (Ordered.less p q r) = rw (p, r) refl
  tested_sign-flag m a b Comparison.lt s (Ordered.equal p q r) = rw (p, r) refl
  tested_sign-flag m a b Comparison.lt s (Ordered.greater p q r) = rw (p, r) refl
  tested_sign-flag m a b Comparison.ge s (Ordered.less p q r) = rw (p, r, q) refl
  tested_sign-flag m a b Comparison.ge s (Ordered.equal p q r) = rw (p, r, q) refl
  tested_sign-flag m a b Comparison.ge s (Ordered.greater p q r) = rw (p, r) refl
  tested_sign-flag m a b Comparison.gt s (Ordered.less p q r) = rw (p, r) refl
  tested_sign-flag m a b Comparison.gt s (Ordered.equal p q r) = rw (p, r) refl
  tested_sign-flag m a b Comparison.gt s (Ordered.greater p q r) = rw (p, r) refl
  tested_sign-flag m a b Comparison.le s (Ordered.less p q r) = rw (p, r) refl
  tested_sign-flag m a b Comparison.le s (Ordered.equal p q r) = rw (p, r, q) refl
  tested_sign-flag m a b Comparison.le s (Ordered.greater p q r) = rw (p, r, q) refl

  test-code :
      (o : Opcode) (op : Comparison) (d : Ctx) (s : FnState)
      → tested o ≡ some op
      → code_of (translate_opcode o d) s ≡ code_of (emit_test_ins op) s
  unfolding translate_opcode
  test-code Opcode.tz op d s h = ap (λ x. code_of (emit_test_ins x) s) (some-inj _ _ h)
  test-code Opcode.tnz op d s h = ap (λ x. code_of (emit_test_ins x) s) (some-inj _ _ h)
  test-code Opcode.ts op d s h = ap (λ x. code_of (emit_test_ins x) s) (some-inj _ _ h)
  test-code Opcode.tns op d s h = ap (λ x. code_of (emit_test_ins x) s) (some-inj _ _ h)
  test-code Opcode.tp op d s h = ap (λ x. code_of (emit_test_ins x) s) (some-inj _ _ h)
  test-code Opcode.tnp op d s h = ap (λ x. code_of (emit_test_ins x) s) (some-inj _ _ h)
  test-code _ op d s h = absurd (cc h)

  -- For a comparison of operands with ordered values and a test of the value register behind it: the
  -- code of the two instructions leaves 1 in the value register if the test's comparison holds of
  -- the values, and 0 otherwise.
  pub translate_opcode-flag :
      (c d : Ctx) (l r : Operand) (op : Comparison) (s₁ s₂ : FnState) (m : Machine fl)
      (a b : Value fl)
      → tested d.ins.opcode ≡ some op
      → operand_value fl m l ≡ some a
      → operand_value fl m r ≡ some b
      → Ordered fl a b
      → value_after (
          continue fl
            (exec fl (code_of (emit_compare c (l, r)) s₁) m)
            (exec fl (code_of (translate_opcode d.ins.opcode d) s₂)))
        ≡ some (if compare_values fl op a b then 1 else 0)
  unfolding emit_compare
  translate_opcode-flag c d l r op s₁ s₂ m a b t p q o =
      ap
        (λ run.
          value_after (continue fl run (exec fl (code_of (translate_opcode d.ins.opcode d) s₂))))
        (operands-run fl c l r (sign fl) s₁ m a b p q)
      ∙ ap
          (λ code. value_after (
            continue fl (continue fl (exec_stmt fl (sign fl) (with_operands fl m a b)) (exec fl []))
              (exec fl code)))
          (test-code d.ins.opcode op d s₂ t)
      ∙ tested_sign-flag m a b op s₂ o
