-- ===== src/Translate/Calls.antt =====
-- Script calls and system calls: emit_direct_script_call_ins, emit_system_call,
-- emit_direct_system_call and emit_direct_system_call_generic of
-- src/angelsea/detail/bytecode2c.cpp.
use mathlib.Core.List.{reverse}
use angelsea.Common.{
  ◌+◌, ℤ, Bool, true, false, ◌&&◌, not, String, Option, List, [], ◌∷◌, ◌==◌, pos, ltbℤ, negℤ, ◌++◌,
  if◌then◌else◌,
}
use angelsea.Translate.CCode.{Symbol, Expr, Piece, Stmt, Forward}
use angelsea.Translate.Engine.{JitConfig, ScriptVariable, ScriptFunction}
use angelsea.Translate.State.{
  Ctx, ExternKind, M, ◌>>◌, pure, when, emit, emit_forward_declaration, map_extern,
}
use angelsea.Translate.Emit.{line, emit_save_sp, emit_save_pc}

abbrev pub fmt : List Piece → M (Unit {0})
fmt pieces = emit (Stmt.text pieces)

-- struct SystemCall; `none` for an empty object_pointer_override.
pub record SystemCall : Type 0 where
  pub fn_idx : ℤ
  pub object_pointer_override : Option Expr
  pub is_internal_call : Bool

-- std::variant<ScriptCallByIdx, ScriptCallByExpr>.
pub data ScriptCall : Type 0 where
  by_idx : ℤ → ScriptCall
  by_expr : ScriptFunction → Expr → ScriptCall

-- The variables of the callee that its frame must clear. `callee_fp` is declared once.
unfoldable pub clear_variables : Bool → List ScriptVariable → M (Unit {0})
clear_variables emitted_fp_var [] = pure tt
clear_variables emitted_fp_var (var ∷ rest) =
    let skips = clear_variables emitted_fp_var rest in
    let clears : M (Unit {0}) = (do
      when (not emitted_fp_var) (line "asDWORD* callee_fp = regs->fp;")
      fmt (
          Piece.str "((asea_var*)(callee_fp + "
          ∷ Piece.int (negℤ var.stack_offset)
          ∷ Piece.str "))->as_asPWORD = 0;"
          ∷ [])
      clear_variables true rest) in
    if ltbℤ (pos 0) var.stack_offset && var.clears then clears else skips

abbrev prepare : String → Ctx → List Piece → M (Unit {0})
prepare name c fn_expr = fmt (
    Piece.str name
    ∷ Piece.str "(_regs, "
    ∷ (fn_expr
        ++ (Piece.str ", base_pc + "
            ∷ Piece.nat (c.ins.offset + c.ins.size)
            ∷ Piece.str ", sp, fp);"
            ∷ [])))

abbrev call_jit_fn : List Piece → M (Unit {0})
call_jit_fn fn_expr = do
  fmt (
      Piece.str "void* script_data = *(void**)((char*)("
      ∷ (fn_expr
          ++ (Piece.str ") + "
              ∷ Piece.off "asea_offset_scriptfn_scriptdata"
              ∷ Piece.str ");"
              ∷ [])))
  fmt (
      Piece.str "asea_jit_fn jit_fn = *(asea_jit_fn*)((char*)script_data + "
      ∷ Piece.off "asea_offset_scriptdata_jitfunction"
      ∷ Piece.str ");"
      ∷ [])
  line "if (jit_fn) { jit_fn(_regs, 1); return; }"
  line "return;"

-- The call fallback: the engine makes the call, and its JIT entry goes on behind it.
unfoldable pub call_by_engine : Ctx → List Piece → M (Unit {0})
call_by_engine c fn_expr = do
  emit_save_sp
  emit_save_pc c true
  fmt (Piece.str "asea_call_script_function(_regs, " ∷ (fn_expr ++ (Piece.str ");" ∷ [])))
  line "return;"

-- Branches into the callee's code, which is this function's own in a recursive call.
unfoldable pub enter_callee : Ctx → Bool → List Piece → M (Unit {0})
enter_callee c true fn_expr = do line "{SELF}(_regs, 1);"; line "return;"
enter_callee c false fn_expr = call_jit_fn fn_expr

abbrev script_fn_pieces : ℤ → List Piece
script_fn_pieces fn_idx =
    Piece.str "(asCScriptFunction*)&" ∷ Piece.sym (Symbol.script_fn_symbol fn_idx) ∷ []

abbrev pub fast_script_call : JitConfig → Bool
fast_script_call config = config.experimental_fast_script_call && config.hack_ignore_suspend

unfoldable pub call_known : Ctx → ℤ → M (Unit {0})
call_known c fn_idx =
    let known_fn = c.engine.function fn_idx in
    let direct : M (Unit {0}) = (do
      prepare "asea_prepare_script_stack" c (script_fn_pieces fn_idx)
      clear_variables false (reverse known_fn.variables)
      enter_callee c (known_fn.pointer == c.fn) (script_fn_pieces fn_idx)) in
    let engine = call_by_engine c (script_fn_pieces fn_idx) in
    if fast_script_call c.config then direct else engine

unfoldable pub call_unknown : Ctx → Expr → M (Unit {0})
call_unknown c e =
    let direct : M (Unit {0}) = (do
      prepare "asea_prepare_script_stack_and_vars" c (Piece.ex e ∷ [])
      enter_callee c false (Piece.ex e ∷ [])) in
    let engine = call_by_engine c (Piece.ex e ∷ []) in
    if fast_script_call c.config then direct else engine

unfoldable pub emit_direct_script_call_ins : Ctx → ScriptCall → M (Unit {0})
emit_direct_script_call_ins c (ScriptCall.by_idx fn_idx) = do
  map_extern (Symbol.script_fn_symbol fn_idx) ExternKind.extern_script_fn
  emit_forward_declaration (Symbol.script_fn_symbol fn_idx)
      (Forward.extern_bytes (Symbol.script_fn_symbol fn_idx))
  call_known c fn_idx
emit_direct_script_call_ins c (ScriptCall.by_expr fn_decl e) = call_unknown c e

-- The registers that a system call may need saved.
unfoldable pub save_context : Ctx → M (Unit {0})
save_context c =
    let full : M (Unit {0}) = (do emit_save_sp; emit_save_pc c true) in
    if not c.config.hack_ignore_context_inspect then full else line "regs->sp = sp;"
