-- ===== src/Translate/Instruction.antt =====
-- The translation of one instruction: translate_instruction of
-- src/angelsea/detail/bytecode2c.cpp around its switch.
use angelsea.Common.{pos, Option, none, some, [], elem, lookup, ltbℤ, if◌then◌else◌}
use angelsea.Translate.CCode.{Name, BinOp, Expr, Stmt, Block}
use angelsea.Translate.State.{
  VirtualInstruction, Ctx, FnState, M, ◌>>=◌, ◌>>◌, pure, when, emit, emit_vm_fallback,
}
use angelsea.Translate.Emit.{make_local_from_operand}
use angelsea.Translate.Switch.{translate_opcode}

-- The handler of a virtual instruction.
unfoldable pub translate_virtual : Ctx → VirtualInstruction → M (Unit {0})
translate_virtual c VirtualInstruction.nop = pure tt
translate_virtual c (VirtualInstruction.fused_compare_jump (l, r) op target) = do
  _ ← make_local_from_operand c Name.lhs l
  _ ← make_local_from_operand c Name.rhs r
  emit (
      Stmt.branch (Expr.binary (BinOp.test op) (Expr.local_var Name.lhs) (Expr.local_var Name.rhs))
        (if c.config.use_builtin_expect then some (ltbℤ target (pos c.ins.offset)) else none)
        target)

unfoldable pub translate_own : Ctx → Option VirtualInstruction → M (Unit {0})
translate_own c (some virtual) = translate_virtual c virtual
translate_own c none = translate_opcode c.ins.opcode c

-- The body of an instruction's block: a fallback if it is blacklisted, else its virtual
-- instruction if it has one, else its own code.
unfoldable pub instruction_body : Ctx → M (Unit {0})
instruction_body c =
    let own : M (Unit {0}) = (do
      translate_own c (lookup c.ins.offset c.found.overriden_instructions)
      when (c.config.fallback_after c.ins.opcode) (emit_vm_fallback c)) in
    if c.config.blacklisted c.ins.opcode then emit_vm_fallback c else own

-- translate_instruction: the block of an instruction, with a label if it may be branched to.
unfoldable pub translate_instruction : Ctx → FnState → Block × FnState
translate_instruction c s =
    let done = (instruction_body c (record s { code = [] })).1 in
    (
      record {
        offset = c.ins.offset;
        labelled = elem c.ins.offset c.found.branch_targets;
        body = done.code;
      },
      done,
    )
