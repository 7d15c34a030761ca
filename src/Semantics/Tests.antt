-- ===== src/Semantics/Tests.antt =====
-- A machine, a small model of floats with a NaN, and a comparison, a jump and divisions on them,
-- at which the theorems are applied.
use angelsea.Common.{
  ℕ, ◌-◌, ◌^◌, ℤ, ◌+ℤ◌, [], ◌∷◌, ◌≡◌, inl, pos, negsuc, Bool, false, ◌==◌, ltb, refl, Option, none,
  some, if◌then◌else◌,
}
use angelsea.Bytecode.Opcode.{Opcode}
use angelsea.Bytecode.VarType.{VarType}
use angelsea.Bytecode.Ins.{Comparison, Operand, cond_expr, target_offset, relative_offset}
use angelsea.Translate.CCode.{Handler}
use angelsea.Translate.State.{VirtualInstruction, Ctx, Discovered}
use angelsea.Translate.Emit.{emit_compare}
use angelsea.Translate.Control.{emit_conditional_jump}
use angelsea.Translate.Switch.{translate_opcode}
use angelsea.Translate.Instruction.{translate_virtual}
use angelsea.Semantics.Machine.{Floats, Value, int, real, Machine, continue, exec}
use angelsea.Semantics.Locals.{code_of}
use angelsea.Semantics.Fused.{goes, fused_compare_jump-agrees}
use angelsea.Semantics.Compared.{value_after, translate_opcode-flag}
use angelsea.Semantics.Unordered.{int-Ordered, fused_compare_jump-unordered}
use angelsea.Semantics.Division.{division_end, signed_division-ends, unsigned_division-ends}
use angelsea.Tests.{config, engine, ins, module_state}

abbrev float_lt : Option ℕ → Option ℕ → Bool
float_lt (some a) (some b) = ltb a b
float_lt _ _ = false

abbrev float_eq : Option ℕ → Option ℕ → Bool
float_eq (some a) (some b) = a == b
float_eq _ _ = false

-- Natural numbers and one NaN.
abbrev floats : Floats
floats = record { F = Option ℕ; flt = float_lt; feq = float_eq; of_bits = λ n. some n }

abbrev found : Discovered
found = record {
  has_any_late_jit_entries = false;
  switch_map = [];
  branch_targets = 9 ∷ [];
  stack_push_infos = [];
  fn_to_stack_push = [];
  overriden_instructions = [];
}

abbrev ctx : Opcode → Ctx
ctx o = record {
  config = config;
  engine = engine;
  fn = 7;
  found = found;
  ins = record (ins o 2 (pos 2)) { offset = 5 };
}

abbrev frame : ℤ → VarType → Value floats
frame off VarType.f32 = real none
frame off VarType.u32 = int (pos 0)
frame (pos n) VarType.s32 = if n == 2 then int (negsuc (2 ^ 31 - 1)) else int (negsuc 0)
frame _ _ = int (pos 3)

abbrev machine : Machine floats
machine = record { value_reg = 0; frame = frame; locals = λ _. none }

agrees_example :
    (goes floats (
        exec floats
          (code_of
            (translate_virtual (ctx Opcode.jnp) (
              VirtualInstruction.fused_compare_jump
                (Operand.frame_variable (pos 1) VarType.s32, Operand.imm_int (pos 5))
                Comparison.le
                (target_offset (ctx Opcode.jnp).ins)))
            module_state)
          machine)
      ≡ some (some (pos 9)))
    × (goes floats (
          continue floats
            (exec floats
              (code_of
                (emit_compare
                  (ctx Opcode.cmpi_i)
                  (Operand.frame_variable (pos 1) VarType.s32, Operand.imm_int (pos 5)))
                module_state)
              machine)
            (exec floats (code_of (emit_conditional_jump (ctx Opcode.jnp)) module_state)))
        ≡ some (some (pos 9)))
unfolding cond_expr target_offset relative_offset ◌+ℤ◌
agrees_example =
    fused_compare_jump-agrees floats (ctx Opcode.cmpi_i) (ctx Opcode.jnp)
      (Operand.frame_variable (pos 1) VarType.s32) (Operand.imm_int (pos 5)) VarType.s32
      Comparison.le 9 module_state module_state module_state machine (int (negsuc 0)) (int (pos 5))
      refl refl refl refl (int-Ordered floats (negsuc 0) (pos 5))

unordered_example :
    (goes floats (
        exec floats
          (code_of
            (translate_virtual (ctx Opcode.jz) (
              VirtualInstruction.fused_compare_jump
                (Operand.frame_variable (pos 1) VarType.f32, Operand.imm_float 5)
                Comparison.eq
                (target_offset (ctx Opcode.jz).ins)))
            module_state)
          machine)
      ≡ some none)
    × (goes floats (
          continue floats
            (exec floats
              (code_of
                (emit_compare
                  (ctx Opcode.cmpi_f)
                  (Operand.frame_variable (pos 1) VarType.f32, Operand.imm_float 5))
                module_state)
              machine)
            (exec floats (code_of (emit_conditional_jump (ctx Opcode.jz)) module_state)))
        ≡ some (some (pos 9)))
unfolding cond_expr target_offset relative_offset ◌+ℤ◌
unordered_example =
    fused_compare_jump-unordered floats (ctx Opcode.cmpi_f) (ctx Opcode.jz)
      (Operand.frame_variable (pos 1) VarType.f32) (Operand.imm_float 5) 9 module_state module_state
      module_state machine (real none) (real (some 5)) refl refl refl refl refl refl refl

signed_division_example :
    division_end floats (
      exec floats (code_of (translate_opcode Opcode.div_i (ctx Opcode.div_i)) module_state) machine)
    ≡ some (inl (Handler.err_divide_overflow, 5))
signed_division_example =
    signed_division-ends floats Opcode.div_i VarType.s32 (negsuc (2 ^ 31 - 1)) (ctx Opcode.div_i)
      module_state machine (negsuc (2 ^ 31 - 1)) (negsuc 0) refl refl refl

unsigned_division_example :
    division_end floats (
      exec floats (code_of (translate_opcode Opcode.mod_u (ctx Opcode.mod_u)) module_state) machine)
    ≡ some (inl (Handler.err_divide_by_zero, 5))
unsigned_division_example =
    unsigned_division-ends floats Opcode.mod_u VarType.u32 (ctx Opcode.mod_u) module_state machine
      (pos 0) refl refl

flag_example :
    value_after floats (
      continue floats
        (exec floats
          (code_of
            (emit_compare
              (ctx Opcode.cmpi_i)
              (Operand.frame_variable (pos 1) VarType.s32, Operand.imm_int (pos 5)))
            module_state)
          machine)
        (exec floats (code_of (translate_opcode Opcode.tnp (ctx Opcode.tnp)) module_state)))
    ≡ some 1
flag_example =
    translate_opcode-flag floats (ctx Opcode.cmpi_i) (ctx Opcode.tnp)
      (Operand.frame_variable (pos 1) VarType.s32) (Operand.imm_int (pos 5)) Comparison.le
      module_state module_state machine (int (negsuc 0)) (int (pos 5)) refl refl refl
      (int-Ordered floats (negsuc 0) (pos 5))
