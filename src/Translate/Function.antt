-- ===== src/Translate/Function.antt =====
-- The translation of a function: translate_function, emit_entry_dispatch and
-- emit_error_handlers of src/angelsea/detail/bytecode2c.cpp.
use angelsea.Common.{
  ℕ, Bool, false, ◌&&◌, ◌||◌, not, none, some, List, [], ◌∷◌, ◌++◌, ◌==◌, if◌then◌else◌,
}
use angelsea.Bytecode.VarType.{VarType}
use angelsea.Bytecode.Ins.{Ins}
use angelsea.Translate.CCode.{Handler, HandlerBlock, Block, Dispatch}
use angelsea.Translate.Engine.{JitConfig, Engine}
use angelsea.Translate.State.{Discovered, FnState, same_handler}
use angelsea.Translate.Discover.{
  is_jit_entry, discover_switch_map, discover_branch_targets, Pushes, discover_function_call_pushes,
  discover_peephole,
}
use angelsea.Translate.Entries.{configure_jit_entries}
use angelsea.Translate.Instruction.{translate_instruction}

-- The C function: temporaries for the pushes, dispatch, blocks, and the error handlers that end
-- the function, in order.
pub record CFunction : Type 0 where
  pub push_temporaries : List (ℕ × VarType)
  pub dispatch : Dispatch
  pub blocks : List Block
  pub handlers : List HandlerBlock

-- The JIT entries in use: their arguments and offsets.
unfoldable pub used_entries : List Ins → List (ℕ × ℕ)
used_entries [] = []
used_entries (ins ∷ rest) =
    if is_jit_entry ins.opcode && not (ins.pword0 == 0)
    then (ins.pword0, ins.offset) ∷ used_entries rest
    else used_entries rest

unfoldable pub entry_offsets : List (ℕ × ℕ) → List ℕ
entry_offsets [] = []
entry_offsets ((id, offset) ∷ rest) = offset ∷ entry_offsets rest

-- Index 0 of the label table is meaningless.
unfoldable pub emit_entry_dispatch : JitConfig → Bool → List Ins → Dispatch
emit_entry_dispatch config has_any_late_jit_entries bytecode =
    if not has_any_late_jit_entries
    then Dispatch.no_dispatch
    else if config.use_gnu_label_as_value
    then Dispatch.label_table (0 ∷ entry_offsets (used_entries bytecode))
    else Dispatch.switch_table (used_entries bytecode)

-- The handler of an exception, and error_handlers_mask behind it: VM_FALLBACK is marked where it is
-- emitted, since it goes on to the label `vm`.
unfoldable pub emit_exception_handler :
    Handler → List HandlerBlock × (Handler → Bool) → List HandlerBlock × (Handler → Bool)
emit_exception_handler h (blocks, mask) =
    if mask h
    then (
      blocks ++ (record { label = h; goes_to = some Handler.vm_fallback } ∷ []),
      λ k. mask k || same_handler Handler.vm_fallback k,
    )
    else (blocks, mask)

unfoldable pub emit_vm_handler : List HandlerBlock × (Handler → Bool) → List HandlerBlock
emit_vm_handler (blocks, mask) =
    if mask Handler.vm_fallback
    then blocks ++ (record { label = Handler.vm_fallback; goes_to = none } ∷ [])
    else blocks

unfoldable pub emit_error_handlers : (Handler → Bool) → List HandlerBlock
emit_error_handlers mask = emit_vm_handler (
    emit_exception_handler Handler.err_divide_overflow (
      emit_exception_handler Handler.err_divide_by_zero
        (emit_exception_handler Handler.err_null ([], mask))))

-- The passes, in the order of translate_function, over the bytecode with its entries numbered.
unfoldable pub discover : JitConfig → Bool → List Ins → List Ins → Discovered
discover config late original bytecode =
    let switches =
      discover_switch_map original (record { current = none; switch_map = []; overriden = [] }) in
    let branch_targets = discover_branch_targets bytecode in
    let nothing : Pushes = record { current = []; stack_push_infos = []; fn_to_stack_push = [] } in
    let pushes =
      if config.experimental_stack_elision
      then discover_function_call_pushes config branch_targets bytecode nothing
      else nothing in
    record {
      has_any_late_jit_entries = late;
      switch_map = switches.switch_map;
      branch_targets = branch_targets;
      stack_push_infos = pushes.stack_push_infos;
      fn_to_stack_push = pushes.fn_to_stack_push;
      overriden_instructions = discover_peephole config bytecode switches.overriden;
    }

unfoldable pub translate_instructions :
    JitConfig → Engine → ℕ → Discovered → List Ins → FnState → List Block × FnState
translate_instructions config engine fn found [] s = ([], s)
translate_instructions config engine fn found (ins ∷ rest) s =
    let (block, s') =
      translate_instruction
        (record { config = config; engine = engine; fn = fn; found = found; ins = ins }) s in
    let (blocks, last) = translate_instructions config engine fn found rest s' in
    (block ∷ blocks, last)

-- What a function's translation starts from: nothing is emitted, no handler is needed and no
-- symbol declared. The counters and declarations are those of the module.
abbrev pub fn_state : FnState → FnState
fn_state module_state = record module_state { code = []; mask = λ _. false; emitted_symbols = [] }

-- translate_function: the C function, the bytecode with its JIT entries set, and the state.
unfoldable pub translate_function :
    JitConfig → Engine → ℕ → List Ins → FnState → CFunction × List Ins × FnState
translate_function config engine fn bytecode module_state =
    let (configured, late) = configure_jit_entries config engine bytecode in
    let found = discover config late bytecode configured in
    let (blocks, last) =
      translate_instructions config engine fn found configured (fn_state module_state) in
    (
      record {
        push_temporaries = found.stack_push_infos;
        dispatch = emit_entry_dispatch config late configured;
        blocks = blocks;
        handlers = emit_error_handlers last.mask;
      },
      configured,
      last,
    )
