-- ===== src/Translate/CCode.antt =====
-- The C code that the translator writes, as a syntax tree. A constructor stands for one format
-- string of src/angelsea/detail/bytecode2c.cpp; code that the theorems do not look into is kept
-- as `text`, the pieces of its format string.
use angelsea.Common.{ℕ, ℤ, Bool, Option, List, String}
use angelsea.Bytecode.VarType.{VarType}
use angelsea.Bytecode.Ins.{Comparison}

-- enum class ErrorHandler.
pub data Handler : Type 0 where
  vm_fallback err_null err_divide_by_zero err_divide_overflow : Handler

-- The locals that generated code declares and reads again. `push_tmp n` is `push_tmp{n}`.
pub data Name : Type 0 where
  lhs rhs divider v value : Name
  push_tmp : ℕ → Name

-- The external symbols, without the prefix and the number of the module, which are constant
-- in one context: `_g{}`, `_mod{}_str{}`, `_mod{}_typeinfo{}`, `_scriptfn{}`, `_sysfn{}`,
-- `_sysfnptr{}`, `_abi{}` and the `_bc` array of the translated function.
pub data Symbol : Type 0 where
  global_symbol string_symbol type_info_symbol abi_symbol : ℕ → Symbol
  script_fn_symbol sys_fn_symbol sys_fn_ptr_symbol : ℤ → Symbol

pub data BinOp : Type 0 where
  add sub mul div rem band bxor bor shl shr : BinOp
  test : Comparison → BinOp

pub data UnOp : Type 0 where
  neg bnot inc dec : UnOp

-- The macro or function of a float division.
pub data FloatOp : Type 0 where
  asea_fdiv fmodf fmod : FloatOp

pub data Expr : Type 0 where
  value_reg : Expr
  frame_var : ℤ → VarType → Expr  -- frame_var(int, VarType)
  frame_ptr : ℤ → Expr  -- frame_ptr(int)
  stack_var : ℕ → VarType → Expr  -- stack_var(int, VarType)
  local_var : Name → Expr
  imm : VarType → ℤ → Expr  -- imm_int: `(type)value`
  number : ℤ → Expr
  reg_deref : VarType → Expr  -- `((asea_var*)value_reg)->as_{type}`
  global_value : VarType → Symbol → Expr  -- `*({type}*)&{symbol}`
  global_address : Symbol → Expr  -- `&{symbol}`
  cast : VarType → Expr → Expr
  unary : UnOp → Expr → Expr
  binary : BinOp → Expr → Expr → Expr
  both : Expr → Expr → Expr  -- `{} && {}`
  float_call : FloatOp → Expr → Expr → Expr
  select : Expr → Expr  -- `({}) ? 1 : 0`
  float_bits : ℕ → Expr  -- the float with these bits, read through asea_i2f
  raw : String → Expr

-- The parts of a format string. `off` is the value of an `asea_offset_` constant.
pub data Piece : Type 0 where
  str off : String → Piece
  ex : Expr → Piece
  nat : ℕ → Piece
  int : ℤ → Piece
  sym : Symbol → Piece

pub data Stmt : Type 0 where
  text : List Piece → Stmt
  declare : VarType → Name → Expr → Stmt  -- `{type} {name} = {expr};`
  assign : Expr → Expr → Stmt  -- `{dst} = {src};`
  effect : Expr → Stmt  -- `{expr};`
  fail_if : Expr → ℕ → Handler → Stmt  -- `if ({cond}) { regs->pc = base_pc + {n}; goto {handler}; }`
  jump_handler : ℕ → Handler → Stmt  -- `regs->pc = base_pc + {n}; goto {handler};`
  goto_bc : ℤ → Stmt  -- `goto bc{n};`
  branch : Expr → Option Bool → ℤ → Stmt  -- `if ({test}) { goto bc{n}; }`, `__builtin_expect` if given
  switch_goto : Expr → List ℕ → Stmt  -- `switch({}) { case {i}: goto bc{n}; … }`

-- The block of one instruction: `bc{}: { … }`, with the label only where it is branched to.
pub record Block : Type 0 where
  pub offset : ℕ
  pub labelled : Bool
  pub body : List Stmt

-- An error handler at the end of the function: its label, and the label that it jumps to behind the
-- report of the exception, `goto vm;`. The handler `vm` itself saves the stack pointer and returns.
pub record HandlerBlock : Type 0 where
  pub label : Handler
  pub goes_to : Option Handler

-- The dispatch on the JIT entry, at the start of the function.
pub data Dispatch : Type 0 where
  no_dispatch : Dispatch
  label_table : List ℕ → Dispatch  -- `entry[] = {&&bc{}, …}; goto *entry[entryLabel];`
  switch_table : List (ℕ × ℕ) → Dispatch  -- `switch(entryLabel) { case {}: goto bc{}; … }`

-- A C type in the signature of a native function: VarType of the source, whose name is `void`, that of
-- a struct of the given size in bytes, or empty where the type cannot be handled.
pub data CType : Type 0 where
  basic : VarType → CType
  struct_type : Symbol → ℕ → CType
  c_void unsupported : CType

-- A declaration before the functions.
pub data Forward : Type 0 where
  extern_pointer : Symbol → Forward  -- `extern void* {};`
  extern_bytes : Symbol → Forward  -- `extern char {}[];`
  struct_of_floats : Symbol → ℕ → Forward  -- `typedef struct { float _0; … } {};`
  struct_of_ints : Symbol → ℕ → Forward  -- `typedef struct { asDWORD _0; … } {};`
  extern_function : Symbol → CType → List CType → Forward  -- `extern {} {}({});`
