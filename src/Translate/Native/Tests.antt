-- ===== src/Translate/Native/Tests.antt =====
-- A method with an int and a handle, behind two elided pushes, and a constructor with a handle.
use angelsea.Common.{
  pos, ◌==ℤ◌, true, false, ◌≡◌, refl, none, some, [], ◌∷◌, ◌+◌, ◌*◌, lookup, arith, if◌then◌else◌,
  get_elem?,
}
use angelsea.Bytecode.Opcode.{Opcode}
use angelsea.Bytecode.VarType.{VarType}
use angelsea.Translate.CCode.{Symbol, Forward, Expr, CType}
use angelsea.Translate.Engine.{Abi, CallConv, DataType, ScriptFunction, Engine}
use angelsea.Translate.State.{map_extern, emit_forward_declaration, Ctx, M, pure, ◌>>=◌, ◌>>◌}
use angelsea.Translate.Calls.{SystemCall}
use angelsea.Translate.Native.Gather.{
  Gathered, gathered_nothing, add_parameters, continue_with, add_parameter, virtual_stack_pop_expr,
  pop_from, inject, push_tmp_expr, casts, push_abi_argument, remember_argument, push_stack_argument,
  push_primitive_argument,
}
use angelsea.Translate.Native.Hidden.{
  gather, gather_parameters, push_hidden, finish_gathering, finish_arguments, pop_object,
  pop_return_pointer, push_pointer_if,
}
use angelsea.Translate.Native.Types.{
  declare_struct, declare_for, emit_dummy_struct_declaration, is_complex_passed_by_value,
  get_var_type,
}
use angelsea.Translate.Native.Call.{
  emit_native_call, call_returning, return_c_type, clean_base_offset, refuses,
  emit_direct_system_call_native,
}
use angelsea.Translate.Native.Moves.{taken, pushes_size, push_size}
use angelsea.Translate.Native.Cleaning.{gather-balanced, gather-finds, gather-misses}
use angelsea.Translate.Native.Silent.{DeclaresStructs}
use angelsea.Translate.Native.Refusal.{emit_direct_system_call-refused}
use angelsea.Translate.SystemCalls.{call_by_convention, emit_direct_system_call}
use angelsea.Tests.{config, int_type, function, engine, ins, module_state}
use angelsea.Translate.Native.Popped.{ReadAt}

abbrev handle_type : DataType
handle_type = record int_type {
  is_object_handle = true;
  is_integer_like = false;
  is_primitive = false;
  is_object = true;
  size_in_memory_bytes = 8;
  size_in_memory_dwords = 2;
  size_on_stack_dwords = 2;
}

abbrev method : ScriptFunction
method = record function {
  call_conv = CallConv.thiscall;
  at_least_thiscall = true;
  parameter_types = int_type ∷ handle_type ∷ [];
  clean_args = record { off = 1; op = 0; release = pos 1; destruct = pos 2 } ∷ [];
}

abbrev constructor : ScriptFunction
constructor = record function {
  call_conv = CallConv.cdecl_objfirst;
  at_least_thiscall = true;
  parameter_types = handle_type ∷ [];
  clean_args = record { off = 0; op = 0; release = pos 1; destruct = pos 2 } ∷ [];
}

abbrev native_engine : Engine
native_engine = record engine { function = λ n. if n ==ℤ pos 5 then method else function }

-- The pushes of the object (a pointer, last) and of an int.
abbrev context : Ctx
context = record {
  config = config;
  engine = native_engine;
  fn = 7;
  found = record {
    has_any_late_jit_entries = false;
    switch_map = [];
    branch_targets = [];
    stack_push_infos = (3, VarType.u32) ∷ (5, VarType.pword) ∷ [];
    fn_to_stack_push = (0, 3 ∷ 5 ∷ []) ∷ [];
    overriden_instructions = [];
  };
  ins = ins Opcode.callsys 2 (pos 5);
}

abbrev method_call : SystemCall
method_call = record { fn_idx = pos 5; object_pointer_override = none; is_internal_call = false }

abbrev constructor_call : SystemCall
constructor_call = record {
  fn_idx = pos 6;
  object_pointer_override = some (Expr.raw "mem");
  is_internal_call = false;
}

abbrev int_result : CType
int_result = CType.basic VarType.u32

-- What is gathered, or the state at the start where the call is refused.
abbrev gathered_by : SystemCall → ScriptFunction → Gathered
gathered_by call fn = elim (gather context call fn Abi.linux_gcc_x86_64 int_result module_state).0 [
  | some g ↦ g
  | none ↦ gathered_nothing context
]

method_gathered :
    (gather context method_call method Abi.linux_gcc_x86_64 int_result module_state).0
    ≡ some (gathered_by method_call method)
unfolding gather gather_parameters push_hidden ◌>>=◌ pure finish_gathering add_parameters
    continue_with add_parameter finish_arguments pop_object virtual_stack_pop_expr pop_from inject
    push_tmp_expr casts pop_return_pointer is_complex_passed_by_value push_pointer_if
    push_abi_argument remember_argument push_stack_argument push_primitive_argument get_var_type
method_gathered = refl

constructor_gathered :
    (gather context constructor_call constructor Abi.linux_gcc_x86_64 int_result module_state).0
    ≡ some (gathered_by constructor_call constructor)
unfolding gather gather_parameters push_hidden ◌>>=◌ pure finish_gathering add_parameters
    continue_with add_parameter finish_arguments pop_object virtual_stack_pop_expr pop_from inject
    push_tmp_expr casts pop_return_pointer is_complex_passed_by_value push_pointer_if
    push_abi_argument remember_argument push_stack_argument push_primitive_argument get_var_type
constructor_gathered = refl

returns_simply : is_complex_passed_by_value int_type ≡ true → false ≡ true
unfolding is_complex_passed_by_value
returns_simply h = h

-- The object and the int come from the pushes, the handle from the stack.
balanced_example :
    let g = gathered_by method_call method in
    (taken g.stack ≡ 5)
    × (g.stack.injected_dwords + g.stack.injected_pwords * 2 + pushes_size context g.pending ≡ 3)
unfolding push_size is_complex_passed_by_value
balanced_example =
    gather-balanced context method_call method Abi.linux_gcc_x86_64 int_result module_state
      (gathered_by method_call method) (omega arith, (omega arith, tt)) method_gathered

-- The handle stands behind the int and the object, which is an argument too, and no push is left.
finds_example :
    (lookup (1 + clean_base_offset method) (gathered_by method_call method).stack_offset_to_arg_id
      ≡ some 2)
    × ReadAt context
        (1 + clean_base_offset method)
        []
        3
        (get_elem? (gathered_by method_call method).args 2)
unfolding is_complex_passed_by_value push_size
finds_example =
    gather-finds context method_call method Abi.linux_gcc_x86_64 int_result module_state
      (gathered_by method_call method) 1 refl refl returns_simply (omega arith, (omega arith, tt))
      method_gathered (omega arith)

misses_example :
    lookup
      (0 + clean_base_offset constructor)
      (gathered_by constructor_call constructor).stack_offset_to_arg_id
    ≡ none
misses_example =
    gather-misses context constructor_call constructor Abi.linux_gcc_x86_64 int_result module_state
      (gathered_by constructor_call constructor) (Expr.raw "mem") refl refl refl returns_simply
      (omega arith, tt) (omega arith) constructor_gathered

-- A method that returns a struct of floats and has variable arguments: it is refused for these, once
-- the struct has been declared.
abbrev variadic : ScriptFunction
variadic = record method {
  call_conv = CallConv.cdecl_objlast;
  return_data_type = record handle_type {
    is_object_handle = false;
    type_info =
        some (record { type_id = 9; is_complex = false; all_floats = true; all_ints = false });
  };
  parameter_types = record int_type { is_question = true } ∷ [];
}

abbrev refused_context : Ctx
refused_context = record context { engine = record engine { function = λ _. variadic } }

abbrev no_cleaning : Gathered → M (Unit {0})
no_cleaning g s = (tt, s)

variadic_refused :
    (emit_direct_system_call refused_context no_cleaning method_call Abi.macos_x86_64
      module_state).0
    ≡ false
unfolding emit_direct_system_call ◌>>◌ ◌>>=◌ call_by_convention emit_direct_system_call_native
    refuses pure return_c_type get_var_type emit_dummy_struct_declaration declare_for declare_struct
    is_complex_passed_by_value call_returning gather gather_parameters push_hidden push_pointer_if
    pop_object pop_return_pointer add_parameters add_parameter remember_argument continue_with
    finish_gathering emit_native_call emit_forward_declaration map_extern virtual_stack_pop_expr
    pop_from
variadic_refused = refl

variadic_declared :
    (emit_direct_system_call refused_context no_cleaning method_call Abi.macos_x86_64
      module_state).1.forward_declarations
    ≡ Forward.struct_of_floats (Symbol.abi_symbol 9) 8 ∷ []
unfolding emit_direct_system_call ◌>>◌ ◌>>=◌ call_by_convention emit_direct_system_call_native
    refuses pure return_c_type get_var_type emit_dummy_struct_declaration declare_for declare_struct
    is_complex_passed_by_value call_returning gather gather_parameters push_hidden push_pointer_if
    pop_object pop_return_pointer add_parameters add_parameter remember_argument continue_with
    finish_gathering emit_native_call emit_forward_declaration map_extern virtual_stack_pop_expr
    pop_from
variadic_declared = refl

refused_example :
    DeclaresStructs module_state
      (emit_direct_system_call refused_context no_cleaning method_call Abi.macos_x86_64
        module_state).1
refused_example =
    emit_direct_system_call-refused no_cleaning refused_context method_call Abi.macos_x86_64
      module_state refl variadic_refused
