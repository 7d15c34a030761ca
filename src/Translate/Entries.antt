-- ===== src/Translate/Entries.antt =====
-- The JIT entries of a function: configure_jit_entries of src/angelsea/detail/bytecode2c.cpp.
use angelsea.Common.{ℕ, ◌+◌, Bool, true, false, ◌||◌, not, List, [], ◌∷◌, ltb, if◌then◌else◌}
use angelsea.Bytecode.Opcode.{Opcode}
use angelsea.Bytecode.Ins.{Ins}
use angelsea.Translate.Engine.{JitConfig, Engine}
use angelsea.Translate.Discover.{is_jit_entry}

-- Whether an instruction is expected never to give the execution back to the virtual machine.
unfoldable pub keeps_trace : JitConfig → Engine → Opcode → Bool
keeps_trace config engine Opcode.suspend = config.hack_ignore_suspend
keeps_trace config engine Opcode.call = false
keeps_trace config engine Opcode.callintf = false
keeps_trace config engine Opcode.alloc = false
keeps_trace config engine Opcode.free = false
keeps_trace config engine Opcode.swap_ptr = false
keeps_trace config engine Opcode.ld_g_rd_r4 = false
keeps_trace config engine Opcode.callbnd = false
keeps_trace config engine Opcode.call_ptr = false
keeps_trace config engine Opcode.chk_ref_s = false
keeps_trace config engine Opcode.clr_hi = false
keeps_trace config engine Opcode.func_ptr = false
keeps_trace config engine Opcode.alloc_mem = false
keeps_trace config engine Opcode.set_list_size = false
keeps_trace config engine Opcode.psh_list_elmnt = false
keeps_trace config engine Opcode.set_list_type = false
keeps_trace config engine Opcode.pow_i = false
keeps_trace config engine Opcode.pow_u = false
keeps_trace config engine Opcode.pow_f = false
keeps_trace config engine Opcode.pow_d = false
keeps_trace config engine Opcode.pow_di = false
keeps_trace config engine Opcode.pow_i64 = false
keeps_trace config engine Opcode.pow_u64 = false
keeps_trace config engine op = engine.is_known op

-- The rest of the loop's body behind the handling of a JIT entry.
unfoldable pub trace_after : JitConfig → Engine → Opcode → Bool → Bool
trace_after config engine op supported =
    if not supported
    then false
    else if config.blacklisted op
    then false
    else keeps_trace config engine op

-- The loop. `is_begin` is `it == bytecode.begin()`, `id` the next entry's number. The result
-- holds the instructions with their new arguments, and the last value of jit_entry_id.
unfoldable pub configure_from : JitConfig → Engine → Bool → Bool → ℕ → List Ins → List Ins × ℕ
configure_from config engine is_begin supported id [] = ([], id)
configure_from config engine is_begin supported id (ins ∷ rest) =
    let is_entry = is_jit_entry ins.opcode in
    let used = is_begin || not supported in
    let ins' = if is_entry then record ins { pword0 = if used then id else 0 } else ins in
    let id' = if is_entry then (if used then id + 1 else id) else id in
    let supported' = trace_after config engine ins.opcode (is_entry || supported) in
    let (out, last) = configure_from config engine false supported' id' rest in (ins' ∷ out, last)

-- configure_jit_entries: the bytecode with its entries numbered, and has_any_late_jit_entries.
unfoldable pub configure_jit_entries : JitConfig → Engine → List Ins → List Ins × Bool
configure_jit_entries config engine bytecode =
    let (out, last) = configure_from config engine true true 1 bytecode in (out, ltb 2 last)
