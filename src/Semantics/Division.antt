-- ===== src/Semantics/Division.antt =====
-- Integer division: emit_divmod_var_int_ins and emit_divmod_var_unsigned_ins of
-- src/angelsea/detail/bytecode2c.cpp leave for the error handlers where C has no result.
use angelsea.Common.{
  ℕ, ℤ, pos, negsuc, ◌==ℤ◌, ◌&&◌, ◌≡◌, refl, Option, none, some, ◌⊎◌, ◌-◌, ◌^◌, inl, inr,
  Bool-cases, if◌then◌else◌,
}
use angelsea.Bytecode.Opcode.{Opcode}
use angelsea.Bytecode.VarType.{VarType}
use angelsea.Translate.CCode.{Handler, Name, BinOp, Expr, Stmt}
use angelsea.Translate.State.{Ctx, FnState, ◌>>◌, emit, mark, fail_when}
use angelsea.Translate.Arithmetic.{emit_divmod_var_int_ins, emit_divmod_var_unsigned_ins}
use angelsea.Translate.Switch.{translate_opcode}
use angelsea.Semantics.Machine.{cast_imm, Floats, int, Machine, Outcome, exec}
use angelsea.Semantics.Locals.{code_of}

-- The signed divisions, with their type and its least value.
abbrev pub signed_division : Opcode → Option (VarType × ℤ)
signed_division Opcode.div_i = some (VarType.s32, negsuc (2 ^ 31 - 1))
signed_division Opcode.mod_i = some (VarType.s32, negsuc (2 ^ 31 - 1))
signed_division Opcode.div_i64 = some (VarType.s64, negsuc (2 ^ 63 - 1))
signed_division Opcode.mod_i64 = some (VarType.s64, negsuc (2 ^ 63 - 1))
signed_division _ = none

abbrev pub unsigned_division : Opcode → Option VarType
unsigned_division Opcode.div_u = some VarType.u32
unsigned_division Opcode.mod_u = some VarType.u32
unsigned_division Opcode.div_u64 = some VarType.u64
unsigned_division Opcode.mod_u64 = some VarType.u64
unsigned_division _ = none

-- The operation of a division.
abbrev pub division_op : Opcode → BinOp
division_op Opcode.mod_i = BinOp.rem
division_op Opcode.mod_i64 = BinOp.rem
division_op Opcode.mod_u = BinOp.rem
division_op Opcode.mod_u64 = BinOp.rem
division_op _ = BinOp.div

-- Where a division ends: in an error handler with the program counter, or at the statement that
-- divides.
abbrev pub DivisionEnd : Type 0
DivisionEnd = Option ((Handler × ℕ) ⊎ Stmt)

module _ (fl : Floats) where
  abbrev pub division_end : Outcome fl → DivisionEnd
  division_end (Outcome.fails h pc m) = some (inl (h, pc))
  division_end (Outcome.stops st m) = some (inr st)
  division_end _ = none

  divmod_int-ends :
      (c : Ctx) (op : BinOp) (overflow : ℕ) (t : VarType) (s : FnState) (m : Machine fl) (x y : ℤ)
      → m.frame c.ins.sword1 t ≡ int x
      → m.frame c.ins.sword2 t ≡ int y
      → division_end (exec fl (code_of (emit_divmod_var_int_ins c op overflow t) s) m)
        ≡ some (
            if y ==ℤ pos 0
            then inl (Handler.err_divide_by_zero, c.ins.offset)
            else if (y ==ℤ negsuc 0) && (x ==ℤ cast_imm t (pos overflow))
            then inl (Handler.err_divide_overflow, c.ins.offset)
            else inr (
                Stmt.assign
                  (Expr.frame_var c.ins.sword0 t)
                  (Expr.binary op (Expr.local_var Name.lhs) (Expr.local_var Name.divider))))
  unfolding emit_divmod_var_int_ins ◌>>◌ emit mark fail_when
  divmod_int-ends c op overflow t s m x y p q = elim (Bool-cases (y ==ℤ pos 0)) [
    | inl z ↦ rw (p, q, z) refl
    | inr z ↦ elim (Bool-cases (y ==ℤ negsuc 0)) [
      | inl u ↦ elim (Bool-cases (x ==ℤ cast_imm t (pos overflow))) [
        | inl v ↦ rw (p, q, z, u, v) refl
        | inr v ↦ rw (p, q, z, u, v) refl
      ]
      | inr u ↦ rw (p, q, z, u) refl
    ]
  ]

  divmod_unsigned-ends :
      (c : Ctx) (op : BinOp) (t : VarType) (s : FnState) (m : Machine fl) (y : ℤ)
      → m.frame c.ins.sword2 t ≡ int y
      → division_end (exec fl (code_of (emit_divmod_var_unsigned_ins c op t) s) m)
        ≡ some (
            if y ==ℤ pos 0
            then inl (Handler.err_divide_by_zero, c.ins.offset)
            else inr (
                Stmt.assign
                  (Expr.frame_var c.ins.sword0 t)
                  (Expr.binary op (Expr.frame_var c.ins.sword1 t) (Expr.local_var Name.divider))))
  unfolding emit_divmod_var_unsigned_ins ◌>>◌ emit mark fail_when
  divmod_unsigned-ends c op t s m y q = elim (Bool-cases (y ==ℤ pos 0)) [
    | inl z ↦ rw (q, z) refl
    | inr z ↦ rw (q, z) refl
  ]

  -- The code of a signed division or remainder, of 32 or 64 bits, on operands x and y: where y is
  -- 0 it leaves for the handler of division by zero, where y is -1 and x the least value of the
  -- type for that of overflow, with the program counter at the instruction; in all other
  -- cases it reaches the statement that divides.
  pub signed_division-ends :
      (o : Opcode) (t : VarType) (least : ℤ) (c : Ctx) (s : FnState) (m : Machine fl) (x y : ℤ)
      → signed_division o ≡ some (t, least)
      → m.frame c.ins.sword1 t ≡ int x
      → m.frame c.ins.sword2 t ≡ int y
      → division_end (exec fl (code_of (translate_opcode o c) s) m)
        ≡ some (
            if y ==ℤ pos 0
            then inl (Handler.err_divide_by_zero, c.ins.offset)
            else if (y ==ℤ negsuc 0) && (x ==ℤ least)
            then inl (Handler.err_divide_overflow, c.ins.offset)
            else inr (
                Stmt.assign (Expr.frame_var c.ins.sword0 t) (
                  Expr.binary
                    (division_op o)
                    (Expr.local_var Name.lhs)
                    (Expr.local_var Name.divider))))
  unfolding translate_opcode
  signed_division-ends Opcode.div_i t least c s m x y h p q =
      let e : t ≡ VarType.s32 = cc h in
      let l : least ≡ negsuc (2 ^ 31 - 1) = cc h in
      rw (e, l) (divmod_int-ends c BinOp.div (2 ^ 31) VarType.s32 s m x y (rw e at p) (rw e at q))
  signed_division-ends Opcode.mod_i t least c s m x y h p q =
      let e : t ≡ VarType.s32 = cc h in
      let l : least ≡ negsuc (2 ^ 31 - 1) = cc h in
      rw (e, l) (divmod_int-ends c BinOp.rem (2 ^ 31) VarType.s32 s m x y (rw e at p) (rw e at q))
  signed_division-ends Opcode.div_i64 t least c s m x y h p q =
      let e : t ≡ VarType.s64 = cc h in
      let l : least ≡ negsuc (2 ^ 63 - 1) = cc h in
      rw (e, l) (divmod_int-ends c BinOp.div (2 ^ 63) VarType.s64 s m x y (rw e at p) (rw e at q))
  signed_division-ends Opcode.mod_i64 t least c s m x y h p q =
      let e : t ≡ VarType.s64 = cc h in
      let l : least ≡ negsuc (2 ^ 63 - 1) = cc h in
      rw (e, l) (divmod_int-ends c BinOp.rem (2 ^ 63) VarType.s64 s m x y (rw e at p) (rw e at q))
  signed_division-ends _ t least c s m x y h p q = absurd (cc h)

  -- The code of an unsigned division or remainder, of 32 or 64 bits, with the divisor y: where y
  -- is 0 it leaves for the handler of division by zero with the program counter at the
  -- instruction, and else it reaches the statement that divides.
  pub unsigned_division-ends :
      (o : Opcode) (t : VarType) (c : Ctx) (s : FnState) (m : Machine fl) (y : ℤ)
      → unsigned_division o ≡ some t
      → m.frame c.ins.sword2 t ≡ int y
      → division_end (exec fl (code_of (translate_opcode o c) s) m)
        ≡ some (
            if y ==ℤ pos 0
            then inl (Handler.err_divide_by_zero, c.ins.offset)
            else inr (
                Stmt.assign (Expr.frame_var c.ins.sword0 t) (
                  Expr.binary
                    (division_op o)
                    (Expr.frame_var c.ins.sword1 t)
                    (Expr.local_var Name.divider))))
  unfolding translate_opcode
  unsigned_division-ends Opcode.div_u t c s m y h q =
      let e : t ≡ VarType.u32 = cc h in
      rw e (divmod_unsigned-ends c BinOp.div VarType.u32 s m y (rw e at q))
  unsigned_division-ends Opcode.mod_u t c s m y h q =
      let e : t ≡ VarType.u32 = cc h in
      rw e (divmod_unsigned-ends c BinOp.rem VarType.u32 s m y (rw e at q))
  unsigned_division-ends Opcode.div_u64 t c s m y h q =
      let e : t ≡ VarType.u64 = cc h in
      rw e (divmod_unsigned-ends c BinOp.div VarType.u64 s m y (rw e at q))
  unsigned_division-ends Opcode.mod_u64 t c s m y h q =
      let e : t ≡ VarType.u64 = cc h in
      rw e (divmod_unsigned-ends c BinOp.rem VarType.u64 s m y (rw e at q))
  unsigned_division-ends _ t c s m y h q = absurd (cc h)
