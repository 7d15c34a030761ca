-- ===== src/Translate/Native/Types.antt =====
-- The C types of a native function's signature: is_complex_passed_by_value,
-- emit_dummy_struct_declaration and get_var_type of src/angelsea/detail/bytecode2c.cpp.
use angelsea.Common.{
  ℕ, Bool, false, ◌||◌, not, String, Option, none, some, List, [], ◌∷◌, ◌==◌, if◌then◌else◌,
}
use angelsea.Bytecode.VarType.{VarType, c_name, var_accessor, size_of}
use angelsea.Translate.CCode.{Symbol, Piece, CType, Forward}
use angelsea.Translate.Engine.{TypeInfo, DataType}
use angelsea.Translate.State.{M, ◌>>◌, pure, emit_forward_declaration}

unfoldable pub is_complex_passed_by_value : DataType → Bool
is_complex_passed_by_value type =
    if not type.is_object || type.is_reference
    then false
    else elim type.type_info [ none ↦ false | some info ↦ info.is_complex ]

-- A struct with the layout of the type, if it is one of floats or one of integers.
unfoldable pub declare_struct : TypeInfo → ℕ → M CType
declare_struct info size =
    let name = Symbol.abi_symbol info.type_id in
    let floats : M CType = (do
      emit_forward_declaration name (Forward.struct_of_floats name size)
      pure (CType.struct_type name size)) in
    let ints : M CType = (do
      emit_forward_declaration name (Forward.struct_of_ints name size)
      pure (CType.struct_type name size)) in
    if info.all_floats then floats else if info.all_ints then ints else pure CType.unsupported

unfoldable pub declare_for : DataType → Option TypeInfo → M CType
declare_for type none = pure CType.unsupported
declare_for type (some info) =
    if is_complex_passed_by_value type
    then pure CType.unsupported
    else declare_struct info type.size_in_memory_bytes

unfoldable pub emit_dummy_struct_declaration : DataType → M CType
emit_dummy_struct_declaration type = declare_for type type.type_info

unfoldable pub get_var_type : DataType → M CType
get_var_type type =
    if type.is_reference || type.is_object_handle
    then pure (CType.basic VarType.void_ptr)
    else if type.is_float
    then pure (CType.basic VarType.f32)
    else if type.is_double
    then pure (CType.basic VarType.f64)
    else if type.is_integer_like
    then pure (CType.basic (if type.size_in_memory_dwords == 1 then VarType.u32 else VarType.u64))
    else if type.size_in_memory_bytes == 0
    then pure CType.c_void
    else emit_dummy_struct_declaration type

-- The name of a type in C, its member of the `asea_var` union, and its size.
abbrev pub type_pieces : CType → List Piece
type_pieces (CType.basic t) = Piece.str (c_name t) ∷ []
type_pieces (CType.struct_type name size) = Piece.sym name ∷ []
type_pieces CType.c_void = Piece.str "void" ∷ []
type_pieces CType.unsupported = []

abbrev pub type_accessor : CType → String
type_accessor (CType.basic t) = var_accessor t
type_accessor CType.c_void = "void"
type_accessor _ = ""

abbrev pub type_size : CType → ℕ
type_size (CType.basic t) = size_of t
type_size (CType.struct_type name size) = size
type_size _ = 0
