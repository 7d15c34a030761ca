-- ===== src/Translate/Safe/Instruction.antt =====
-- The code of a whole instruction is safe: its switch, its virtual instruction and its fallbacks.
use angelsea.Common.{
  ℕ, ℤ, pos, to_size_t, true, ◌≡◌, refl, Option, none, some, List, inl, inr, Option-cases, lookup,
  elem, All,
}
use angelsea.Bytecode.Opcode.{Opcode}
use angelsea.Bytecode.Ins.{Operand, Comparison, is_jump, cond_expr, target_offset}
use angelsea.Translate.CCode.{Name, Stmt}
use angelsea.Translate.State.{VirtualInstruction, Ctx}
use angelsea.Translate.Emit.{emit_cond_branch}
use angelsea.Translate.Control.{emit_jmp, emit_jmpp, emit_conditional_jump}
use angelsea.Translate.Switch.{translate_opcode}
use angelsea.Translate.Instruction.{translate_virtual, translate_own, instruction_body}
use angelsea.Translate.Safe.Rules.{
  IsTarget, Keeps, Keeps-bind, Keeps-then, Keeps-when, Keeps-if, Keeps-emit_safe,
  Keeps-emit_vm_fallback,
}
use angelsea.Translate.Safe.Emitters.{emitters, Keeps-make_local_from_operand}
use angelsea.Translate.Safe.Opcodes.{opcodes}

-- The jumps that the instruction may make, by itself or by its virtual instruction, go to
-- branch targets.
pub record JumpsFound (bt : List ℕ) (c : Ctx) : Type 0 where
  pub jump : is_jump c.ins.opcode ≡ true → IsTarget bt (target_offset c.ins)
  pub switches :
      (ts : List ℕ)
      → lookup c.ins.offset c.found.switch_map ≡ some ts
      → All (λ t. elem t bt ≡ true) ts
  pub fused :
      (o : Operand × Operand) (op : Comparison) (t : ℤ)
      → lookup c.ins.offset c.found.overriden_instructions
        ≡ some (VirtualInstruction.fused_compare_jump o op t)
      → IsTarget bt t

module _ (bt : List ℕ) (c : Ctx) (h : JumpsFound bt c) where
  Keeps-emit_jmp : is_jump c.ins.opcode ≡ true → Keeps bt (emit_jmp c)
  unfolding emit_jmp
  Keeps-emit_jmp j = Keeps-emit_safe bt (Stmt.goto_bc (target_offset c.ins)) (λ m. h.jump j)

  Keeps-emit_jmpp : Keeps bt (emit_jmpp c)
  unfolding emit_jmpp
  Keeps-emit_jmpp = elim (Option-cases (lookup c.ins.offset c.found.switch_map)) [
    | inl e ↦ rw (e, emit_jmpp) (search emitters)
    | inr (ts, e) ↦
        rw (e, emit_jmpp) (Keeps-emit_safe bt (Stmt.switch_goto _ ts) (λ m. h.switches ts e))
  ]

  to_size_t-IsTarget : (z : ℤ) → IsTarget bt z → IsTarget bt (pos (to_size_t z))
  to_size_t-IsTarget z (n, e, i) = rw e (n, refl, i)

  Keeps-emit_conditional_jump : is_jump c.ins.opcode ≡ true → Keeps bt (emit_conditional_jump c)
  unfolding emit_conditional_jump emit_cond_branch
  Keeps-emit_conditional_jump j = elim (Option-cases (cond_expr c.ins.opcode)) [
    | inl e ↦ rw (e, emit_conditional_jump) (search emitters)
    | inr (p, e) ↦
        rw (e, emit_conditional_jump)
          (Keeps-emit_safe bt (Stmt.branch _ _ (pos (to_size_t (target_offset c.ins))))
            (λ m. to_size_t-IsTarget (target_offset c.ins) (h.jump j)))
  ]

  Keeps-translate_opcode : (op : Opcode) → c.ins.opcode ≡ op → Keeps bt (translate_opcode op c)
  unfolding translate_opcode is_jump
  Keeps-translate_opcode Opcode.jmp e = Keeps-emit_jmp (rw e refl)
  Keeps-translate_opcode Opcode.jmpp e = Keeps-emit_jmpp
  Keeps-translate_opcode Opcode.jz e = Keeps-emit_conditional_jump (rw e refl)
  Keeps-translate_opcode Opcode.j_low_z e = Keeps-emit_conditional_jump (rw e refl)
  Keeps-translate_opcode Opcode.jnz e = Keeps-emit_conditional_jump (rw e refl)
  Keeps-translate_opcode Opcode.j_low_nz e = Keeps-emit_conditional_jump (rw e refl)
  Keeps-translate_opcode Opcode.js e = Keeps-emit_conditional_jump (rw e refl)
  Keeps-translate_opcode Opcode.jns e = Keeps-emit_conditional_jump (rw e refl)
  Keeps-translate_opcode Opcode.jp e = Keeps-emit_conditional_jump (rw e refl)
  Keeps-translate_opcode Opcode.jnp e = Keeps-emit_conditional_jump (rw e refl)
  Keeps-translate_opcode _ e = search opcodes

  Keeps-translate_virtual :
      (v : VirtualInstruction)
      → lookup c.ins.offset c.found.overriden_instructions ≡ some v
      → Keeps bt (translate_virtual c v)
  unfolding translate_virtual
  Keeps-translate_virtual VirtualInstruction.nop e = search emitters
  Keeps-translate_virtual (VirtualInstruction.fused_compare_jump (l, r) op t) e =
      Keeps-bind bt _ _ (Keeps-make_local_from_operand bt c Name.lhs l) λ _.
        Keeps-bind bt _ _ (Keeps-make_local_from_operand bt c Name.rhs r)
          λ _. Keeps-emit_safe bt (Stmt.branch _ _ t) (λ m. h.fused (l, r) op t e)

  Keeps-translate_own :
      (o : Option VirtualInstruction)
      → lookup c.ins.offset c.found.overriden_instructions ≡ o
      → Keeps bt (translate_own c o)
  unfolding translate_own
  Keeps-translate_own none e = Keeps-translate_opcode c.ins.opcode refl
  Keeps-translate_own (some v) e = Keeps-translate_virtual v e

  -- Whatever the configuration, the code of one instruction only jumps where it may.
  pub Keeps-instruction_body : Keeps bt (instruction_body c)
  unfolding instruction_body
  Keeps-instruction_body =
      Keeps-if bt (c.config.blacklisted c.ins.opcode) _ _ (Keeps-emit_vm_fallback bt c) (
        Keeps-then bt _ _ (Keeps-translate_own _ refl)
          (Keeps-when bt _ _ (Keeps-emit_vm_fallback bt c)))
