-- ===== src/Translate/Engine.antt =====
-- What the translator reads of the script engine, which is no code of this repository, and the
-- configuration (include/angelsea/config.hpp). Pointers into the engine are numbers.
use angelsea.Common.{ℕ, ℤ, Bool, Option, List}
use angelsea.Bytecode.Opcode.{Opcode}

-- enum class AbiMask.
pub data Abi : Type 0 where
  generic linux_gcc_x86_64 windows_msvc_x86_64 windows_mingw_x86_64 : Abi
  macos_x86_64 linux_gcc_aarch64 macos_aarch64 : Abi

-- The fields of JitConfig that the modelled code reads. `blacklisted` is membership in
-- debug.blacklist_instructions, `fallback_after` equality with debug.fallback_after_instruction
-- and `abi` the test of c.abi against a mask.
pub record JitConfig : Type 0 where
  pub blacklisted : Opcode → Bool
  pub fallback_after : Opcode → Bool
  pub abi : Abi → Bool
  pub hack_ignore_suspend : Bool
  pub hack_ignore_exceptions : Bool
  pub hack_ignore_context_inspect : Bool
  pub hack_generic_assume_callee_correctness : Bool
  pub experimental_fast_script_call : Bool
  pub experimental_direct_generic_call : Bool
  pub experimental_direct_native_call : Bool
  pub experimental_stack_elision : Bool
  pub experimental_fast_script_return : Bool
  pub use_gnu_label_as_value : Bool
  pub use_builtin_expect : Bool

-- asCObjectType: its size, flags and behaviours (0 where there is none).
pub record ObjectType : Type 0 where
  pub size : ℕ
  pub is_script_object : Bool
  pub is_list_pattern : Bool
  pub is_ref : Bool
  pub is_nocount_or_value : Bool
  pub release : ℕ
  pub addref : ℕ
  pub destruct : ℕ

-- asSScriptVariable: `clears` is `onHeap && (type.IsObject() || type.IsFuncdef())`.
pub record ScriptVariable : Type 0 where
  pub stack_offset : ℤ
  pub clears : Bool

-- internalCallConv, with `unsupported_conv` for those that no direct call is emitted for.
pub data CallConv : Type 0 where
  generic_func generic_method cdecl cdecl_objfirst cdecl_objlast : CallConv
  thiscall virtual_thiscall unsupported_conv : CallConv

-- asITypeInfo: its number, and tests of its flags: those of is_complex_passed_by_value,
-- asOBJ_APP_CLASS_ALLFLOATS | asOBJ_APP_FLOAT, and asOBJ_APP_CLASS_ALLINTS | asOBJ_APP_PRIMITIVE.
pub record TypeInfo : Type 0 where
  pub type_id : ℕ
  pub is_complex : Bool
  pub all_floats : Bool
  pub all_ints : Bool

-- asCDataType. `is_integer_like` is IsIntegerType, IsUnsignedType, IsBooleanType or IsEnumType, and
-- `is_question` a token type ttQuestion.
pub record DataType : Type 0 where
  pub is_reference : Bool
  pub is_object_handle : Bool
  pub is_float : Bool
  pub is_double : Bool
  pub is_integer_like : Bool
  pub is_funcdef : Bool
  pub is_object : Bool
  pub is_primitive : Bool
  pub is_question : Bool
  pub size_in_memory_bytes : ℕ
  pub size_in_memory_dwords : ℕ
  pub size_on_stack_dwords : ℕ
  pub type_info : Option TypeInfo

-- asSSystemFunctionInterface::SClean, with the release and destruct behaviours of its type.
pub record SClean : Type 0 where
  pub off : ℕ
  pub op : ℕ
  pub release : ℤ
  pub destruct : ℤ

-- asCScriptFunction with its system function interface. `at_least_thiscall` and
-- `at_least_thiscall_objlast` are `callConv >= ICC_THISCALL` and `callConv >= ICC_THISCALL_OBJLAST`
-- in the order of the engine's enumeration.
pub record ScriptFunction : Type 0 where
  pub pointer : ℕ
  pub argument_space : ℕ
  pub is_interface : Bool
  pub vftable_index : ℕ
  pub variables : List ScriptVariable
  pub call_conv : CallConv
  pub at_least_thiscall : Bool
  pub at_least_thiscall_objlast : Bool
  pub param_size : ℕ
  pub is_variadic : Bool
  pub returns_on_stack : Bool
  pub return_auto_handle : Bool
  pub param_auto_handles : List Bool
  pub is_composite_indirect : Bool
  pub has_auxiliary : Bool
  pub base_offset : ℤ
  pub returns_object : Bool
  pub return_type : ℕ
  pub return_data_type : DataType
  pub parameter_types : List DataType
  pub clean_args : List SClean

-- `global_id` is the lookup in varAddressMap: the id of the property at an address.
-- `is_known` is `opcode <= asBC_Thiscall1`. `frame_size` is CALLSTACK_FRAME_SIZE.
pub record Engine : Type 0 where
  pub global_id : ℕ → Option ℕ
  pub object_type : ℕ → ObjectType
  pub function : ℤ → ScriptFunction
  pub generic_call_mode_1 : Bool
  pub is_known : Opcode → Bool
  pub frame_size : ℕ
