-- ===== src/Tests.antt =====
-- A small function as the engine compiles it, a configuration and an engine, on which the
-- theorems are applied: an entry, a comparison with a jump over a division, and a second entry
-- behind a system call.
use angelsea.Common.{
  ℕ, ℤ, ◌+ℤ◌, pos, negsuc, true, false, ◌≡◌, refl, none, some, List, [], ◌∷◌, ◌++◌, lookup, ltb,
}
use angelsea.Bytecode.Opcode.{Opcode}
use angelsea.Bytecode.Ins.{Ins, place, is_jump, target_offset, relative_offset}
use angelsea.Translate.Engine.{JitConfig, CallConv, DataType, ScriptFunction, Engine}
use angelsea.Translate.State.{FnState}
use angelsea.Translate.Discover.{switch_role, discover_switch_map}
use angelsea.Translate.SwitchTable.{no_switches, discover_switch_map-table}
use angelsea.Translate.Entries.{keeps_trace, trace_after, configure_from, configure_jit_entries}
use angelsea.Translate.Function.{used_entries, emit_entry_dispatch, translate_function}
use angelsea.Translate.Numbers.{numbers_from, arguments, configure_jit_entries-numbers}
use angelsea.Translate.Dispatch.{enters, emit_entry_dispatch-enters}
use angelsea.Translate.Safe.Function.{labels_of}
use angelsea.Translate.Safe.Targets.{Within}
use angelsea.Translate.Safe.Closed.{
  WellFormed, BlocksClosed, HandlersClosed, targets_of_dispatch, translate_function-closed,
}

abbrev pub config : JitConfig
config = record {
  blacklisted = λ _. false;
  fallback_after = λ _. false;
  abi = λ _. true;
  hack_ignore_suspend = true;
  hack_ignore_exceptions = true;
  hack_ignore_context_inspect = true;
  hack_generic_assume_callee_correctness = false;
  experimental_fast_script_call = true;
  experimental_direct_generic_call = true;
  experimental_direct_native_call = true;
  experimental_stack_elision = true;
  experimental_fast_script_return = true;
  use_gnu_label_as_value = false;
  use_builtin_expect = true;
}

abbrev pub int_type : DataType
int_type = record {
  is_reference = false;
  is_object_handle = false;
  is_float = false;
  is_double = false;
  is_integer_like = true;
  is_funcdef = false;
  is_object = false;
  is_primitive = true;
  is_question = false;
  size_in_memory_bytes = 4;
  size_in_memory_dwords = 1;
  size_on_stack_dwords = 1;
  type_info = none;
}

abbrev pub function : ScriptFunction
function = record {
  pointer = 7;
  argument_space = 0;
  is_interface = false;
  vftable_index = 0;
  variables = [];
  call_conv = CallConv.generic_func;
  at_least_thiscall = false;
  at_least_thiscall_objlast = false;
  param_size = 1;
  is_variadic = false;
  returns_on_stack = false;
  return_auto_handle = false;
  param_auto_handles = [];
  is_composite_indirect = false;
  has_auxiliary = false;
  base_offset = pos 0;
  returns_object = false;
  return_type = 0;
  return_data_type = int_type;
  parameter_types = [];
  clean_args = [];
}

abbrev pub engine : Engine
engine = record {
  global_id = λ _. none;
  object_type = λ _. record {
    size = 8;
    is_script_object = false;
    is_list_pattern = false;
    is_ref = true;
    is_nocount_or_value = false;
    release = 1;
    addref = 2;
    destruct = 3;
  };
  function = λ _. function;
  generic_call_mode_1 = true;
  is_known = λ _. true;
  frame_size = 4;
}

abbrev pub ins : Opcode → ℕ → ℤ → Ins
ins op size arg = record {
  offset = 0;
  size = size;
  opcode = op;
  sword0 = pos 1;
  sword1 = pos 2;
  sword2 = pos 3;
  word0 = 0;
  int = λ _. arg;
  dword = λ _. 0;
  qword0 = 0;
  pword0 = 0;
}

abbrev pub bytecode : List Ins
bytecode =
    ins Opcode.jit_entry 3 (pos 0)
    ∷ record (ins Opcode.cmpi_i 2 (pos 5)) { offset = 3 }
    ∷ record (ins Opcode.jz 2 (pos 2)) { offset = 5 }
    ∷ record (ins Opcode.div_i 2 (pos 0)) { offset = 7 }
    ∷ record (ins Opcode.callsys 2 (pos 0)) { offset = 9 }
    ∷ record (ins Opcode.call 2 (pos 0)) { offset = 11 }
    ∷ record (ins Opcode.jit_entry 3 (pos 0)) { offset = 13 }
    ∷ record (ins Opcode.jmp 2 (negsuc 14)) { offset = 16 }
    ∷ record (ins Opcode.ret 1 (pos 0)) { offset = 18 }
    ∷ []

-- The offsets are those at which the sizes place the instructions.
bytecode-placed : place 0 bytecode ≡ bytecode
unfolding place
bytecode-placed = refl

bytecode-WellFormed : WellFormed bytecode
unfolding is_jump target_offset relative_offset ◌+ℤ◌
bytecode-WellFormed = record {
  jumps = (
    λ e. absurd (cc e),
    (
      λ e. absurd (cc e),
      (
        λ _. (9, refl, refl),
        (
          λ e. absurd (cc e),
          (
            λ e. absurd (cc e),
            (
              λ e. absurd (cc e),
              (λ e. absurd (cc e), (λ _. (3, refl, refl), (λ e. absurd (cc e), tt))),
            ),
          ),
        ),
      ),
    ),
  );
  begins = (ins Opcode.jit_entry 3 (pos 0), _, refl, refl, refl);
}

abbrev pub module_state : FnState
module_state = record {
  code = [];
  mask = λ _. false;
  fallback_count = 0;
  string_constant_idx = 0;
  type_info_idx = 0;
  emitted_symbols = [];
  forward_declarations = [];
  externs = [];
}

closed_example :
    let f = (translate_function config engine 7 bytecode module_state).0 in
    BlocksClosed f × Within (targets_of_dispatch f.dispatch) (labels_of f.blocks) × HandlersClosed f
closed_example = translate_function-closed config engine 7 bytecode module_state bytecode-WellFormed

second-entry : lookup 2 (used_entries (configure_jit_entries config engine bytecode).0) ≡ some 13
unfolding used_entries configure_jit_entries configure_from trace_after keeps_trace
second-entry = refl

enters_example :
    enters
      (emit_entry_dispatch config
        (configure_jit_entries config engine bytecode).1
        (configure_jit_entries config engine bytecode).0)
      2
    ≡ some 13
enters_example =
    emit_entry_dispatch-enters config engine bytecode bytecode-WellFormed 2 13 second-entry

-- A switch with two cases.
abbrev cases : List Ins
cases =
    record (ins Opcode.jmp 2 (pos 3)) { offset = 4 }
    ∷ record (ins Opcode.jmp 2 (pos 0)) { offset = 6 }
    ∷ []

abbrev behind : List Ins
behind =
    record (ins Opcode.ret 1 (pos 0)) { offset = 8 }
    ∷ record (ins Opcode.ret 1 (pos 0)) { offset = 9 }
    ∷ []

table_example :
    lookup 3
      (discover_switch_map
        (ins Opcode.jit_entry 3 (pos 0) ∷ record (ins Opcode.jmpp 1 (pos 0)) { offset = 3 } ∷ cases
          ++ behind)
        no_switches).switch_map
    ≡ some (9 ∷ 8 ∷ [])
unfolding switch_role target_offset relative_offset ◌+ℤ◌
table_example =
    discover_switch_map-table (ins Opcode.jit_entry 3 (pos 0) ∷ []) cases behind
      (record (ins Opcode.jmpp 1 (pos 0)) { offset = 3 }) refl (refl, (refl, tt)) (λ e. cc e)
      (refl, tt) (refl, (refl, tt))

numbers_example :
    (n : ℕ) × (arguments (configure_jit_entries config engine bytecode).0 ≡ numbers_from 1 n)
    × ((configure_jit_entries config engine bytecode).1 ≡ ltb 1 n)
numbers_example = configure_jit_entries-numbers config engine bytecode
