-- ===== src/Translate/State.antt =====
-- The state of a translation (struct FnState, struct ModuleState of
-- include/angelsea/detail/bytecode2c.hpp) and the state monad of the emitting functions.
use angelsea.Common.{
  ℕ, ◌+◌, ℤ, Bool, true, false, ◌||◌, List, [], ◌∷◌, ◌++◌, ◌==◌, if◌then◌else◌, ◌==ℤ◌,
}
use angelsea.Bytecode.VarType.{VarType}
use angelsea.Bytecode.Ins.{Ins, Operand, Comparison}
use angelsea.Translate.CCode.{Handler, Symbol, Stmt, Forward, Expr}
use angelsea.Translate.Engine.{JitConfig, Engine}

-- An entry of overriden_instructions.
pub data VirtualInstruction : Type 0 where
  fused_compare_jump : Operand × Operand → Comparison → ℤ → VirtualInstruction
  nop : VirtualInstruction

-- What the discovery passes leave in FnState: the maps and sets that the emitting functions
-- only read.
pub record Discovered : Type 0 where
  pub has_any_late_jit_entries : Bool
  pub switch_map : List (ℕ × List ℕ)
  pub branch_targets : List ℕ
  pub stack_push_infos : List (ℕ × VarType)
  pub fn_to_stack_push : List (ℕ × List ℕ)
  pub overriden_instructions : List (ℕ × VirtualInstruction)

-- What an emitting function may read: the configuration, the engine, the function that is
-- translated (its pointer), the results of the discovery, and the current instruction.
pub record Ctx : Type 0 where
  pub config : JitConfig
  pub engine : Engine
  pub fn : ℕ
  pub found : Discovered
  pub ins : Ins

-- A call of the callback that maps an external symbol: the symbol and the address that it stands for.
pub data ExternKind : Type 0 where
  extern_global extern_string extern_script_fn extern_system_fn extern_type_info : ExternKind

-- The state that emitting changes. `code` is the text of the current instruction so far,
-- `mask` is error_handlers_mask as a set.
pub record FnState : Type 0 where
  pub code : List Stmt
  pub mask : Handler → Bool
  pub fallback_count : ℕ
  pub string_constant_idx : ℕ
  pub type_info_idx : ℕ
  pub emitted_symbols : List Symbol
  pub forward_declarations : List Forward
  pub externs : List (Symbol × ExternKind)

abbrev pub M : Type 0 → Type 0
M A = FnState → A × FnState

infixl 5 ◌>>=◌ ◌>>◌
unfoldable pub ◌>>=◌ : {A B : Type 0} → M A → (A → M B) → M B
◌>>=◌ m f s = let (a, s') = m s in f a s'

unfoldable pub ◌>>◌ : {B : Type 0} → M (Unit {0}) → M B → M B
◌>>◌ m k s = k (m s).1

unfoldable pub pure : {A : Type 0} → A → M A
pure a s = (a, s)

unfoldable pub when : Bool → M (Unit {0}) → M (Unit {0})
when true m s = m s
when false m s = (tt, s)

-- emit: the text goes to the end of function_code.
unfoldable pub emit : Stmt → M (Unit {0})
emit st s = (tt, record s { code = s.code ++ (st ∷ []) })

abbrev pub same_handler : Handler → Handler → Bool
same_handler Handler.vm_fallback Handler.vm_fallback = true
same_handler Handler.err_null Handler.err_null = true
same_handler Handler.err_divide_by_zero Handler.err_divide_by_zero = true
same_handler Handler.err_divide_overflow Handler.err_divide_overflow = true
same_handler _ _ = false

-- `error_handlers_mask |= handler`.
unfoldable pub mark : Handler → M (Unit {0})
mark h s = (tt, record s { mask = λ k. s.mask k || same_handler h k })

-- The jump of jump_to_error_handler_code under a condition: asking for its text marks the handler.
unfoldable pub fail_when : Ctx → Expr → Handler → M (Unit {0})
fail_when c test h = do mark h; emit (Stmt.fail_if test c.ins.offset h)

-- `++m_module_state.fallback_count`.
unfoldable pub count_fallback : M (Unit {0})
count_fallback s = (tt, record s { fallback_count = s.fallback_count + 1 })

-- emit_vm_fallback.
unfoldable pub emit_vm_fallback : Ctx → M (Unit {0})
emit_vm_fallback c = do
  count_fallback
  mark Handler.vm_fallback
  emit (Stmt.jump_handler c.ins.offset Handler.vm_fallback)

abbrev pub same_symbol : Symbol → Symbol → Bool
same_symbol (Symbol.global_symbol a) (Symbol.global_symbol b) = a == b
same_symbol (Symbol.string_symbol a) (Symbol.string_symbol b) = a == b
same_symbol (Symbol.type_info_symbol a) (Symbol.type_info_symbol b) = a == b
same_symbol (Symbol.abi_symbol a) (Symbol.abi_symbol b) = a == b
same_symbol (Symbol.script_fn_symbol a) (Symbol.script_fn_symbol b) = a ==ℤ b
same_symbol (Symbol.sys_fn_symbol a) (Symbol.sys_fn_symbol b) = a ==ℤ b
same_symbol (Symbol.sys_fn_ptr_symbol a) (Symbol.sys_fn_ptr_symbol b) = a ==ℤ b
same_symbol _ _ = false

abbrev pub has_symbol : Symbol → List Symbol → Bool
has_symbol x [] = false
has_symbol x (y ∷ ys) = same_symbol y x || has_symbol x ys

-- emit_forward_declaration: only the first time for a symbol.
unfoldable pub emit_forward_declaration : Symbol → Forward → M (Unit {0})
emit_forward_declaration x d s = if has_symbol x s.emitted_symbols then (tt, s) else (
  tt,
  record s {
    emitted_symbols = x ∷ s.emitted_symbols;
    forward_declarations = s.forward_declarations ++ (d ∷ []);
  },
)

-- The callback that maps an external symbol.
unfoldable pub map_extern : Symbol → ExternKind → M (Unit {0})
map_extern x kind s = (tt, record s { externs = s.externs ++ ((x, kind) ∷ []) })

-- The running numbers of string constants and of type infos, with the step to the next one.
unfoldable pub next_string_constant : M ℕ
next_string_constant s =
    (s.string_constant_idx, record s { string_constant_idx = s.string_constant_idx + 1 })

unfoldable pub next_type_info : M ℕ
next_type_info s = (s.type_info_idx, record s { type_info_idx = s.type_info_idx + 1 })
