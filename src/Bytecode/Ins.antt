-- ===== src/Bytecode/Ins.antt =====
-- Instructions and the groups that the translator sorts them in: struct InsRef, the structs of
-- namespace operands and of namespace bcins of include/angelsea/detail/bytecodeinstruction.hpp.
use angelsea.Common.{
  ℕ, ◌+◌, ℤ, pos, ◌+ℤ◌, to_size_t, Bool, true, false, Option, none, some, List, [], ◌∷◌,
}
use angelsea.Bytecode.Opcode.{Opcode}
use angelsea.Bytecode.VarType.{VarType}

-- An instruction with its offset in dwords. `size` is what the engine's table gives for the
-- opcode. `dword k` is `dword0(k)` of the source, the argument k dwords further on.
pub record Ins : Type 0 where
  pub offset : ℕ
  pub size : ℕ
  pub opcode : Opcode
  pub sword0 : ℤ
  pub sword1 : ℤ
  pub sword2 : ℤ
  pub word0 : ℕ
  pub int : ℕ → ℤ
  pub dword : ℕ → ℕ
  pub qword0 : ℕ
  pub pword0 : ℕ

-- BytecodeView: an iterator stands at the sum of the sizes of the instructions before it.
unfoldable pub place : ℕ → List Ins → List Ins
place at [] = []
place at (ins ∷ rest) = record ins { offset = at } ∷ place (at + ins.size) rest

pub data Comparison : Type 0 where
  eq ne lt ge gt le : Comparison

-- Jump: the opcodes that jump, switches apart.
unfoldable pub is_jump : Opcode → Bool
is_jump Opcode.jmp = true
is_jump Opcode.jz = true
is_jump Opcode.j_low_z = true
is_jump Opcode.jnz = true
is_jump Opcode.j_low_nz = true
is_jump Opcode.js = true
is_jump Opcode.jns = true
is_jump Opcode.jp = true
is_jump Opcode.jnp = true
is_jump _ = false

-- The condition of a jump: the type at which the value register is read, and the test
-- against 0. `none` for an unconditional jump.
unfoldable pub cond_expr : Opcode → Option (VarType × Comparison)
cond_expr Opcode.jz = some (VarType.s32, Comparison.eq)
cond_expr Opcode.j_low_z = some (VarType.u8, Comparison.eq)
cond_expr Opcode.jnz = some (VarType.s32, Comparison.ne)
cond_expr Opcode.j_low_nz = some (VarType.u8, Comparison.ne)
cond_expr Opcode.js = some (VarType.s32, Comparison.lt)
cond_expr Opcode.jns = some (VarType.s32, Comparison.ge)
cond_expr Opcode.jp = some (VarType.s32, Comparison.gt)
cond_expr Opcode.jnp = some (VarType.s32, Comparison.le)
cond_expr _ = none

unfoldable pub relative_offset : Ins → ℤ
relative_offset ins = ins.int 0 +ℤ pos ins.size

unfoldable pub target_offset : Ins → ℤ
target_offset ins = pos ins.offset +ℤ relative_offset ins

-- The operands. An `Immediate<float>` is given by its bits; an `Immediate<asPWORD>` is an
-- `Immediate<asQWORD>` where pointers have 64 bits.
pub data Operand : Type 0 where
  frame_variable : ℤ → VarType → Operand
  frame_variable_pointer : ℤ → Operand
  imm_dword : ℕ → Operand
  imm_qword : ℕ → Operand
  imm_int : ℤ → Operand
  imm_float : ℕ → Operand
  global_variable : ℕ → VarType → Bool → Bool → Operand
  object_type : ℕ → Operand
  value_register : VarType → Operand

-- visit_operand_type
unfoldable pub operand_type : Operand → VarType
operand_type (Operand.frame_variable idx t) = t
operand_type (Operand.frame_variable_pointer idx) = VarType.void_ptr
operand_type (Operand.imm_dword n) = VarType.u32
operand_type (Operand.imm_qword n) = VarType.u64
operand_type (Operand.imm_int z) = VarType.s32
operand_type (Operand.imm_float bits) = VarType.f32
operand_type (Operand.global_variable ptr t can_refer_to_str true) = t
operand_type (Operand.global_variable ptr t can_refer_to_str false) = VarType.void_ptr
operand_type (Operand.object_type ptr) = VarType.void_ptr
operand_type (Operand.value_register t) = t

-- StackPush: the value that an instruction pushes, `none` where it is no stack push.
unfoldable pub push_value : Opcode → Ins → Option Operand
push_value Opcode.typeid ins = some (Operand.imm_dword (ins.dword 0))
push_value Opcode.psh_c4 ins = some (Operand.imm_dword (ins.dword 0))
push_value Opcode.psh_v4 ins = some (Operand.frame_variable ins.sword0 VarType.u32)
push_value Opcode.psh_g4 ins = some (Operand.global_variable ins.pword0 VarType.u32 true true)
push_value Opcode.psh_c8 ins = some (Operand.imm_qword ins.qword0)
push_value Opcode.psh_v8 ins = some (Operand.frame_variable ins.sword0 VarType.u64)
push_value Opcode.var ins = some (Operand.imm_qword (to_size_t ins.sword0))
push_value Opcode.psh_null ins = some (Operand.imm_qword 0)
push_value Opcode.psh_v_ptr ins = some (Operand.frame_variable ins.sword0 VarType.pword)
push_value Opcode.psh_g_ptr ins = some (Operand.global_variable ins.pword0 VarType.pword true true)
push_value Opcode.psh_r_ptr ins = some (Operand.value_register VarType.pword)
push_value Opcode.psf ins = some (Operand.frame_variable_pointer ins.sword0)
push_value Opcode.pga ins = some (Operand.global_variable ins.pword0 VarType.empty true false)
push_value Opcode.objtype ins = some (Operand.object_type ins.pword0)
push_value _ ins = none

-- Compare: the two operands, `none` where the instruction is no comparison.
unfoldable pub compare_operands : Opcode → Ins → Option (Operand × Operand)
compare_operands Opcode.cmp_i ins =
    some
      (Operand.frame_variable ins.sword0 VarType.s32, Operand.frame_variable ins.sword1 VarType.s32)
compare_operands Opcode.cmp_u ins =
    some
      (Operand.frame_variable ins.sword0 VarType.u32, Operand.frame_variable ins.sword1 VarType.u32)
compare_operands Opcode.cmp_i64 ins =
    some
      (Operand.frame_variable ins.sword0 VarType.s64, Operand.frame_variable ins.sword1 VarType.s64)
compare_operands Opcode.cmp_u64 ins =
    some
      (Operand.frame_variable ins.sword0 VarType.u64, Operand.frame_variable ins.sword1 VarType.u64)
compare_operands Opcode.cmp_ptr ins = some (
  Operand.frame_variable ins.sword0 VarType.pword,
  Operand.frame_variable ins.sword1 VarType.pword,
)
compare_operands Opcode.cmp_f ins =
    some
      (Operand.frame_variable ins.sword0 VarType.f32, Operand.frame_variable ins.sword1 VarType.f32)
compare_operands Opcode.cmp_d ins =
    some
      (Operand.frame_variable ins.sword0 VarType.f64, Operand.frame_variable ins.sword1 VarType.f64)
compare_operands Opcode.cmpi_i ins =
    some (Operand.frame_variable ins.sword0 VarType.s32, Operand.imm_int (ins.int 0))
compare_operands Opcode.cmpi_u ins =
    some (Operand.frame_variable ins.sword0 VarType.u32, Operand.imm_dword (ins.dword 0))
compare_operands Opcode.cmpi_f ins =
    some (Operand.frame_variable ins.sword0 VarType.f32, Operand.imm_float (ins.dword 0))
compare_operands _ ins = none

-- CallSystemDirect: a system call with a known function index.
unfoldable pub is_system_call : Opcode → Bool
is_system_call Opcode.callsys = true
is_system_call Opcode.thiscall1 = true
is_system_call _ = false
