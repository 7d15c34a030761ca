-- ===== src/Translate/Elision/Tests.antt =====
-- An int and a pointer pushed in front of a system call, and one push that a jump follows.
use angelsea.Common.{pos, ◌+ℤ◌, false, ◌≡◌, refl, some, List, [], ◌∷◌, ◌≤◌, arith, All, lookup}
use angelsea.Bytecode.Opcode.{Opcode}
use angelsea.Bytecode.Ins.{
  Ins, place, is_jump, target_offset, relative_offset, is_system_call, push_value,
}
use angelsea.Translate.CCode.{Name, Expr, Stmt}
use angelsea.Translate.State.{Ctx, FnState}
use angelsea.Translate.Discover.{
  Pushes, discover_branch_targets, targets_of, discover_function_call_pushes, ends_pushes,
  push_step,
}
use angelsea.Translate.Function.{discover}
use angelsea.Bytecode.VarType.{VarType}
use angelsea.Translate.Elision.Maps.{Distinct, place-Distinct}
use angelsea.Translate.Elision.Handover.{Handover, Matched}
use angelsea.Translate.Elision.Pass.{discover_function_call_pushes-Matched}
use angelsea.Translate.Emit.{store_push, flush_stack_push_optimization}
use angelsea.Translate.Elision.Flush.{restored, flush_stack_push_optimization-restores}
use angelsea.Semantics.Locals.{code_of}
use angelsea.Tests.{config, engine, ins, module_state}

abbrev pushing : List Ins
pushing = place 0 (
    ins Opcode.jit_entry 3 (pos 0)
    ∷ ins Opcode.psh_c4 2 (pos 0)
    ∷ ins Opcode.jmp 2 (pos 5)
    ∷ ins Opcode.psh_c4 2 (pos 0)
    ∷ ins Opcode.psf 1 (pos 0)
    ∷ ins Opcode.callsys 2 (pos 5)
    ∷ ins Opcode.ret 1 (pos 0)
    ∷ [])

pushing-Distinct : Distinct pushing
pushing-Distinct =
    let one : 1 ≤ 1 = omega arith in
    let two : 1 ≤ 2 = omega arith in
    let three : 1 ≤ 3 = omega arith in
    place-Distinct 0 _ (three, (two, (two, (two, (one, (two, (one, tt)))))))

-- The state of the pass at its end.
abbrev ended : Pushes
ended =
    discover_function_call_pushes config [] pushing
      (record { current = []; stack_push_infos = []; fn_to_stack_push = [] })

matched_example : Matched config [] pushing ended.stack_push_infos ended.fn_to_stack_push
matched_example = discover_function_call_pushes-Matched config [] pushing pushing-Distinct

abbrev call_context : Ctx
call_context = record {
  config = config;
  engine = engine;
  fn = 7;
  found = discover config false pushing pushing;
  ins = record (ins Opcode.callsys 2 (pos 5)) { offset = 10 };
}

call_takes : lookup 10 call_context.found.fn_to_stack_push ≡ some (7 ∷ 9 ∷ [])
unfolding discover discover_function_call_pushes push_step ends_pushes push_value
    discover_branch_targets targets_of place is_system_call is_jump target_offset relative_offset
    ◌+ℤ◌
call_takes = refl

restores_example :
    (h : Handover config
      (discover_branch_targets pushing)
      pushing
      call_context.found.stack_push_infos
      call_context.found.fn_to_stack_push)
    × (h.call.offset ≡ 10)
    × (code_of (flush_stack_push_optimization call_context) module_state
        ≡ restored module_state h.run)
    × All
        (λ x.
          (t : VarType) (s' : FnState)
          → code_of (store_push (record call_context { ins = x }) t) s'
            ≡ Stmt.assign (Expr.local_var (Name.push_tmp x.offset)) (Expr.local_var Name.v) ∷ [])
        h.run
restores_example =
    flush_stack_push_optimization-restores call_context false pushing pushing (7 ∷ 9 ∷ [])
      module_state pushing-Distinct refl call_takes
