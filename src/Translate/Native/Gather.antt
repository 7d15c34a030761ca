-- ===== src/Translate/Native/Gather.antt =====
-- The first half of emit_direct_system_call_native of src/angelsea/detail/bytecode2c.cpp, which
-- gathers the arguments of the call. Arguments stand on the script stack, or, where their pushes
-- have been elided, in the temporaries push_tmp of the pushes, the last of which is the first
-- argument.
use mathlib.Core.List.{reverse}
use angelsea.Common.{
  ℕ, ◌+◌, ◌*◌, ◌/◌, ℤ, pos, ◌+ℤ◌, negℤ, ◌||◌, Option, none, some, List, [], ◌∷◌, ◌++◌,
  if◌then◌else◌, length, lookup, emplace,
}
use angelsea.Bytecode.VarType.{VarType}
use angelsea.Translate.CCode.{Name, Expr, Piece, CType}
use angelsea.Translate.Engine.{DataType}
use angelsea.Translate.State.{Ctx, M, ◌>>=◌, pure}
use angelsea.Translate.Native.Types.{
  is_complex_passed_by_value, get_var_type, type_pieces, type_accessor, type_size,
}

-- struct VirtualStack: an offset is what was taken less what was injected. Pointers have two dwords.
pub record VirtualStack : Type 0 where
  pub taken_dwords : ℕ
  pub injected_dwords : ℕ
  pub taken_pwords : ℕ
  pub injected_pwords : ℕ
  pub real_stack_offset : ℕ

abbrev pub empty_stack : VirtualStack
empty_stack = record {
  taken_dwords = 0;
  injected_dwords = 0;
  taken_pwords = 0;
  injected_pwords = 0;
  real_stack_offset = 0;
}

abbrev pub dword_offset : VirtualStack → ℤ
dword_offset v = pos v.taken_dwords +ℤ negℤ (pos v.injected_dwords)

abbrev pub pword_offset : VirtualStack → ℤ
pword_offset v = pos v.taken_pwords +ℤ negℤ (pos v.injected_pwords)

abbrev pub take_dwords : ℕ → VirtualStack → VirtualStack
take_dwords count v = record v {
  taken_dwords = v.taken_dwords + count;
  real_stack_offset = v.real_stack_offset + count;
}

abbrev pub take_pwords : ℕ → VirtualStack → VirtualStack
take_pwords count v = record v {
  taken_pwords = v.taken_pwords + count;
  real_stack_offset = v.real_stack_offset + count * 2;
}

-- By the type of the push; the other types are not pushed.
unfoldable pub inject : Option VarType → VirtualStack → VirtualStack
inject (some VarType.u32) v = record v { injected_dwords = v.injected_dwords + 1 }
inject (some VarType.u64) v = record v { injected_dwords = v.injected_dwords + 2 }
inject (some VarType.pword) v = record v { injected_pwords = v.injected_pwords + 1 }
inject (some VarType.void_ptr) v = record v { injected_pwords = v.injected_pwords + 1 }
inject _ v = v

pub record Arg : Type 0 where
  pub type : CType
  pub expr : List Piece

-- The locals of the function: `pending` has the offsets of the elided pushes that are not used yet,
-- the last push first. The code before and behind the call is a list of lines.
pub record Gathered : Type 0 where
  pub args : List Arg
  pub stack_offset_to_arg_id : List (ℕ × ℕ)
  pub max_regs_used : ℕ
  pub stack : VirtualStack
  pub pending : List ℕ
  pub to_emit_before_call : List (List Piece)
  pub to_emit_after_call : List (List Piece)

-- push_offsets, if there are any for the current instruction.
abbrev pub elided_pushes : Option (List ℕ) → List ℕ
elided_pushes none = []
elided_pushes (some pushes) = reverse pushes

abbrev pub gathered_nothing : Ctx → Gathered
gathered_nothing c = record {
  args = [];
  stack_offset_to_arg_id = [];
  max_regs_used = 0;
  stack = empty_stack;
  pending = elided_pushes (lookup c.ins.offset c.found.fn_to_stack_push);
  to_emit_before_call = [];
  to_emit_after_call = [];
}

abbrev pub push_tmp : ℕ → Piece
push_tmp p = Piece.ex (Expr.local_var (Name.push_tmp p))

abbrev tmp_casted : ℕ → List Piece
tmp_casted p = Piece.str "tmp_casted" ∷ Piece.nat p ∷ []

-- A float is read through a union, into a temporary.
unfoldable pub casts : CType → ℕ → List (List Piece)
casts (CType.basic VarType.f32) p =
    (Piece.str "asea_i2f_inst.i = " ∷ push_tmp p ∷ Piece.str ";" ∷ [])
    ∷ (Piece.str "float " ∷ (tmp_casted p ++ (Piece.str " = asea_i2f_inst.f;" ∷ [])))
    ∷ []
casts (CType.basic VarType.f64) p =
    (Piece.str "asea_i2f64_inst.i = " ∷ push_tmp p ∷ Piece.str ";" ∷ [])
    ∷ (Piece.str "double " ∷ (tmp_casted p ++ (Piece.str " = asea_i2f64_inst.f;" ∷ [])))
    ∷ []
casts _ p = []

unfoldable pub push_tmp_expr : CType → ℕ → List Piece
push_tmp_expr (CType.basic VarType.f32) p = tmp_casted p
push_tmp_expr (CType.basic VarType.f64) p = tmp_casted p
push_tmp_expr type p = Piece.str "(" ∷ (type_pieces type ++ (Piece.str ")" ∷ push_tmp p ∷ []))

abbrev pub stack_expr : CType → VirtualStack → List Piece
stack_expr type v =
    Piece.str "((asea_var*)((char*)sp + "
    ∷ Piece.int (dword_offset v)
    ∷ Piece.str "*sizeof(asDWORD) + "
    ∷ Piece.int (pword_offset v)
    ∷ Piece.str "*sizeof(asPWORD)))->as_"
    ∷ Piece.str (type_accessor type)
    ∷ []

unfoldable pub pop_from : Ctx → CType → Gathered → List ℕ → List Piece × Gathered
pop_from c type g [] = (stack_expr type g.stack, g)
pop_from c type g (p ∷ rest) = (
  push_tmp_expr type p,
  record g {
    pending = rest;
    stack = inject (lookup p c.found.stack_push_infos) g.stack;
    to_emit_before_call = g.to_emit_before_call ++ casts type p;
  },
)

-- virtual_stack_pop_expr.
unfoldable pub virtual_stack_pop_expr : Ctx → CType → Gathered → List Piece × Gathered
virtual_stack_pop_expr c type g = pop_from c type g g.pending

unfoldable pub push_abi_argument : CType → List Piece → Gathered → Gathered
push_abi_argument type expr g = record g {
  args = g.args ++ (record { type = type; expr = expr } ∷ []);
  max_regs_used = g.max_regs_used + (type_size type + 7) / 8;
}

unfoldable pub push_stack_argument : Ctx → CType → Gathered → Gathered
push_stack_argument c type g =
    let (expr, g') = virtual_stack_pop_expr c type g in push_abi_argument type expr g'

abbrev pub void_ptr : CType
void_ptr = CType.basic VarType.void_ptr

abbrev pub take_pword : Gathered → Gathered
take_pword g = record g { stack = take_pwords 1 g.stack }

-- A value behind a pointer on the stack, which is freed after the call.
unfoldable pub push_value_argument : Ctx → CType → Gathered → Gathered
push_value_argument c type g =
    let (popped, g') = virtual_stack_pop_expr c void_ptr g in
    let arg_ptr = Piece.str "(" ∷ (type_pieces type ++ (Piece.str "*)" ∷ popped)) in
    let g'' = push_abi_argument type (Piece.str "*" ∷ arg_ptr) g' in
    take_pword (record g'' {
      to_emit_after_call =
          g''.to_emit_after_call
          ++ ((Piece.str "asea_free(" ∷ (arg_ptr ++ (Piece.str ");" ∷ []))) ∷ []);
    })

unfoldable pub remember_argument : Gathered → Gathered
remember_argument g = record g {
  stack_offset_to_arg_id =
      emplace g.stack.real_stack_offset (length g.args) g.stack_offset_to_arg_id;
}

unfoldable pub push_primitive_argument : Ctx → DataType → CType → Gathered → Gathered
push_primitive_argument c param type g =
    let g' = push_stack_argument c type g in
    record g' { stack = take_dwords param.size_on_stack_dwords g'.stack }

-- One parameter; none for variable arguments.
unfoldable pub add_parameter : Ctx → DataType → Gathered → M (Option Gathered)
add_parameter c param g0 =
    let g = remember_argument g0 in
    let primitive : M (Option Gathered) = (do
      type ← get_var_type param
      pure (some (push_primitive_argument c param type g))) in
    let by_value : M (Option Gathered) = (do
      type ← get_var_type param
      pure (some (push_value_argument c type g))) in
    if param.is_question
    then pure none
    else if param.is_reference || param.is_object_handle
    then pure (some (take_pword (push_stack_argument c void_ptr g)))
    else if param.is_primitive
    then primitive
    else if is_complex_passed_by_value param
    then pure (some (take_pword (push_stack_argument c void_ptr g)))
    else by_value

unfoldable pub continue_with :
    (Gathered → M (Option Gathered)) → Option Gathered → M (Option Gathered)
continue_with f none = pure none
continue_with f (some g) = f g

unfoldable pub add_parameters : Ctx → List DataType → Gathered → M (Option Gathered)
add_parameters c [] g = pure (some g)
add_parameters c (param ∷ rest) g = do
  r ← add_parameter c param g
  continue_with (add_parameters c rest) r
