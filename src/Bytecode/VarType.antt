-- ===== src/Bytecode/VarType.antt =====
-- The C types of values on the script stack (struct VarType and namespace var_types of
-- include/angelsea/detail/bytecodeinstruction.hpp).
use angelsea.Common.{ℕ, Bool, true, false, String}

-- `empty` is `VarType{}`; the others are the constants of namespace var_types.
pub data VarType : Type 0 where
  s8 s16 s32 s64 u8 u16 u32 u64 pword void_ptr f32 f64 empty : VarType

-- The C type name.
abbrev pub c_name : VarType → String
c_name VarType.s8 = "asINT8"
c_name VarType.s16 = "asINT16"
c_name VarType.s32 = "asINT32"
c_name VarType.s64 = "asINT64"
c_name VarType.u8 = "asBYTE"
c_name VarType.u16 = "asWORD"
c_name VarType.u32 = "asDWORD"
c_name VarType.u64 = "asQWORD"
c_name VarType.pword = "asPWORD"
c_name VarType.void_ptr = "void*"
c_name VarType.f32 = "float"
c_name VarType.f64 = "double"
c_name VarType.empty = ""

-- The member of the `asea_var` union.
abbrev pub var_accessor : VarType → String
var_accessor VarType.void_ptr = "ptr"
var_accessor t = c_name t

abbrev pub size_of : VarType → ℕ
size_of VarType.s8 = 1
size_of VarType.s16 = 2
size_of VarType.s32 = 4
size_of VarType.s64 = 8
size_of VarType.u8 = 1
size_of VarType.u16 = 2
size_of VarType.u32 = 4
size_of VarType.u64 = 8
size_of VarType.pword = 8
size_of VarType.void_ptr = 8
size_of VarType.f32 = 4
size_of VarType.f64 = 8
size_of VarType.empty = 0

-- `type == pword || type == void_ptr`: the values of pointer size.
abbrev pub is_pointer : VarType → Bool
is_pointer VarType.pword = true
is_pointer VarType.void_ptr = true
is_pointer _ = false
