-- ===== src/Translate/Safe/Closed.antt =====
-- The jumps of a translated function, on entry, in its blocks and in its error handlers, and its
-- labels.
use angelsea.Common.{
  ℕ, Bool, true, false, ◌≡◌, ◌&&◌, not, none, List, [], ◌∷◌, ◌++◌, ◌==◌, ltb, inl, inr,
  if◌then◌else◌, elem, elem-append, or_left, or_right, or-cases, All, All-map, ==_iff, ==_refl,
}
use angelsea.Bytecode.Opcode.{Opcode}
use angelsea.Bytecode.Ins.{Ins, relative_offset, target_offset}
use angelsea.Translate.CCode.{Handler, Stmt, Dispatch}
use angelsea.Translate.Engine.{JitConfig, Engine}
use angelsea.Translate.State.{VirtualInstruction, Discovered, FnState}
use angelsea.Translate.Discover.{is_jit_entry, Switches, discover_branch_targets, targets_of}
use angelsea.Translate.Entries.{configure_from, configure_jit_entries}
use angelsea.Translate.Safe.Numbering.{
  offsets_of, configure_from-All, All-configure_from, offsets_of-configure_from,
}
use angelsea.Translate.Function.{
  CFunction, used_entries, entry_offsets, emit_entry_dispatch, discover, translate_instructions,
  fn_state, translate_function,
}
use angelsea.Translate.Safe.Rules.{IsSafe, Grows}
use angelsea.Translate.Safe.Instruction.{JumpsFound}
use angelsea.Translate.Safe.Function.{
  labels_of, has_handler, HandlerClosed, ctx, BlockSafe, translate_instructions-safe,
  translate_instructions-labels,
}
use angelsea.Translate.Safe.Handlers.{
  emit_error_handlers-has_handler, emit_error_handlers-HandlerClosed,
}
use angelsea.Translate.Safe.Targets.{
  Within, JumpsIn, JumpsTo, discover_branch_targets-JumpsIn, discover_branch_targets-Within,
}
use angelsea.Translate.Safe.Discovery.{
  SwitchesIn-lookup, OverridesIn-lookup, discover_switch_map-SwitchesOk,
  discover_peephole-OverridesIn,
}

-- The discovered maps lead an instruction's jumps to branch targets.
discover-JumpsFound :
    (config : JitConfig) (engine : Engine) (fn : ℕ) (late : Bool) (original bytecode : List Ins)
    → All (JumpsIn (discover_branch_targets bytecode)) original
    → All (JumpsIn (discover_branch_targets bytecode)) bytecode
    → let found = discover config late original bytecode in
      (ins : Ins)
      → JumpsIn found.branch_targets ins
      → JumpsFound found.branch_targets (ctx config engine fn found ins)
unfolding discover
discover-JumpsFound config engine fn late original bytecode jo jb ins j =
    let bt = discover_branch_targets bytecode in
    let start : Switches = record { current = none; switch_map = []; overriden = [] } in
    let ok = discover_switch_map-SwitchesOk bt original start jo (tt, tt) in
    record {
      jump = j;
      switches = λ ts e. SwitchesIn-lookup bt ins.offset _ ts ok.0 e;
      fused = λ o op t e.
          OverridesIn-lookup bt ins.offset _ (VirtualInstruction.fused_compare_jump o op t)
            (discover_peephole-OverridesIn bt config bytecode _ jb ok.1) e;
    }

-- What the engine's compiler guarantees of a function's bytecode: every jump goes to an
-- instruction, and an entry for the JIT comes first.
pub record WellFormed (bytecode : List Ins) : Type 0 where
  pub jumps : All (JumpsTo (offsets_of bytecode)) bytecode
  pub begins :
      (first : Ins) × (rest : List Ins) × (bytecode ≡ first ∷ rest)
      × (first.opcode ≡ Opcode.jit_entry)
      × (first.offset ≡ 0)

offsets_of-All :
    (l : List Ins) (os : List ℕ)
    → Within (offsets_of l) os
    → All (λ ins. elem ins.offset os ≡ true) l
offsets_of-All [] os w = tt
offsets_of-All (ins ∷ rest) os w = (
  w ins.offset (or_left (ins.offset == ins.offset) _ (==_refl ins.offset)),
  offsets_of-All rest os (λ n h. w n (or_right (ins.offset == n) (elem n (offsets_of rest)) h)),
)

IsSafe-Within :
    (bt ls : List ℕ) (m n : Handler → Bool)
    → Within bt ls
    → Grows m n
    → (st : Stmt) → IsSafe bt m st
    → IsSafe ls n st
IsSafe-Within bt ls m n w g (Stmt.fail_if e k h) s = g h s
IsSafe-Within bt ls m n w g (Stmt.jump_handler k h) s = g h s
IsSafe-Within bt ls m n w g (Stmt.goto_bc t) (k, e, i) = (k, e, w k i)
IsSafe-Within bt ls m n w g (Stmt.branch x expect t) (k, e, i) = (k, e, w k i)
IsSafe-Within bt ls m n w g (Stmt.switch_goto e ts) s = All-map _ _ ts (λ t. w t) s
IsSafe-Within bt ls m n w g (Stmt.text _) s = tt
IsSafe-Within bt ls m n w g (Stmt.declare _ _ _) s = tt
IsSafe-Within bt ls m n w g (Stmt.assign _ _) s = tt
IsSafe-Within bt ls m n w g (Stmt.effect _) s = tt

-- Every block of the function: its jumps go to labels of the function's blocks, and to error
-- handlers that stand at its end.
abbrev pub BlocksClosed : CFunction → Type 0
BlocksClosed f =
    All (λ b. All (IsSafe (labels_of f.blocks) (has_handler f.handlers)) b.body) f.blocks

-- The jumps at the end of the error handlers go to error handlers that stand there.
abbrev pub HandlersClosed : CFunction → Type 0
HandlersClosed f = All (HandlerClosed f.handlers) f.handlers

-- The jumps on entry go to labels too.
abbrev pub targets_of_dispatch : Dispatch → List ℕ
targets_of_dispatch Dispatch.no_dispatch = []
targets_of_dispatch (Dispatch.label_table ts) = ts
targets_of_dispatch (Dispatch.switch_table es) = entry_offsets es

module _ (config : JitConfig) (engine : Engine) (fn : ℕ) (bytecode : List Ins) (s : FnState)
    (wf : WellFormed bytecode) where
  abbrev offs : List ℕ
  offs = offsets_of bytecode

  abbrev configured : List Ins
  configured = (configure_from config engine true true 1 bytecode).0

  abbrev bt : List ℕ
  bt = discover_branch_targets configured

  configured-JumpsTo : All (JumpsTo offs) configured
  unfolding target_offset relative_offset
  configured-JumpsTo =
      configure_from-All config engine (JumpsTo offs) (λ ins k q. q) true true 1 bytecode wf.jumps

  configured-JumpsIn : All (JumpsIn bt) configured
  configured-JumpsIn =
      discover_branch_targets-JumpsIn offs bt configured configured-JumpsTo (λ n h. h)

  bytecode-JumpsIn : All (JumpsIn bt) bytecode
  unfolding target_offset relative_offset
  bytecode-JumpsIn =
      All-configure_from config engine (JumpsIn bt) (λ ins k q. q) true true 1 bytecode
        configured-JumpsIn

  bt-Within-offs : Within bt offs
  bt-Within-offs =
      discover_branch_targets-Within offs configured configured-JumpsTo
        (offsets_of-All configured offs (λ n h. rw offsets_of-configure_from at h))

  abbrev late : Bool
  late = ltb 2 (configure_from config engine true true 1 bytecode).1

  abbrev found : Discovered
  found = discover config late bytecode configured

  configured-JumpsFound : All (λ ins. JumpsFound bt (ctx config engine fn found ins)) configured
  unfolding discover
  configured-JumpsFound =
      All-map (JumpsIn bt) _ configured
        (discover-JumpsFound config engine fn late bytecode configured bytecode-JumpsIn
          configured-JumpsIn)
        configured-JumpsIn

  bt-Within_labels : Within bt (labels_of (translate_function config engine fn bytecode s).0.blocks)
  unfolding translate_function configure_jit_entries discover
  bt-Within_labels n h =
      translate_instructions-labels config engine fn found n configured (fn_state s) h
        (rw offsets_of-configure_from (bt-Within-offs n h))

  pub translate_function-BlocksClosed :
      BlocksClosed (translate_function config engine fn bytecode s).0
  unfolding translate_function configure_jit_entries discover
  translate_function-BlocksClosed =
      let run = translate_instructions config engine fn found configured (fn_state s) in
      let safe =
        translate_instructions-safe config engine fn found configured (fn_state s)
          configured-JumpsFound in
      All-map (BlockSafe config engine fn found run.1.mask) _ run.0
        (λ b. All-map (IsSafe bt run.1.mask) _ b.body (
          IsSafe-Within bt _ run.1.mask _ bt-Within_labels
            (emit_error_handlers-has_handler run.1.mask)))
        safe.1

  used_step :
      (b : Bool) (n k o : ℕ) (us : List (ℕ × ℕ)) (xs ys : List ℕ)
      → (elem n (entry_offsets us) ≡ true → elem n ys ≡ true)
      → elem n (entry_offsets (if b then (k, o) ∷ us else us)) ≡ true
      → elem n (((if b then o ∷ [] else []) ++ xs) ++ ys) ≡ true
  unfolding entry_offsets
  used_step true n k o us xs ys f h = elim (or-cases (o == n) (elem n (entry_offsets us)) h) [
    | inl e ↦ or_left (o == n) (elem n (xs ++ ys)) e
    | inr e ↦
        or_right (o == n) (elem n (xs ++ ys))
          (rw elem-append (or_right (elem n xs) (elem n ys) (f e)))
  ]
  used_step false n k o us xs ys f h = rw elem-append (or_right (elem n xs) (elem n ys) (f h))

  entry_offsets-Within :
      (l : List Ins) → Within (entry_offsets (used_entries l)) (discover_branch_targets l)
  unfolding entry_offsets used_entries discover_branch_targets targets_of
  entry_offsets-Within [] n h = h
  entry_offsets-Within (ins ∷ rest) n h =
      used_step (is_jit_entry ins.opcode && not (ins.pword0 == 0)) n ins.pword0 ins.offset
        (used_entries rest) _ (discover_branch_targets rest) (entry_offsets-Within rest n) h

  -- The first instruction is always an entry in use.
  begin-target :
      (first : Ins) (rest : List Ins)
      → first.opcode ≡ Opcode.jit_entry
      → first.offset ≡ 0
      → elem 0 (discover_branch_targets (configure_from config engine true true 1 (first ∷ rest)).0)
        ≡ true
  unfolding configure_from discover_branch_targets targets_of
  begin-target first rest o z = rw (o, z)

  zero-target : elem 0 bt ≡ true
  zero-target = let (first, rest, e, o, z) = wf.begins in rw e (begin-target first rest o z)

  dispatch_if :
      (a b : Bool)
      → Within
          (targets_of_dispatch (
            if a
            then Dispatch.no_dispatch
            else if b
            then Dispatch.label_table (0 ∷ entry_offsets (used_entries configured))
            else Dispatch.switch_table (used_entries configured)))
          bt
  dispatch_if true b n h = absurd (cc h)
  dispatch_if false true n h =
      elim (or-cases (0 == n) (elem n (entry_offsets (used_entries configured))) h) [
        | inl e ↦ rw (← (==_iff 0 n).0 e) zero-target
        | inr e ↦ entry_offsets-Within configured n e
      ]
  dispatch_if false false n h = entry_offsets-Within configured n h

  pub translate_function-DispatchClosed :
      let f = (translate_function config engine fn bytecode s).0 in
      Within (targets_of_dispatch f.dispatch) (labels_of f.blocks)
  unfolding translate_function configure_jit_entries emit_entry_dispatch
  translate_function-DispatchClosed n h =
      bt-Within_labels n (dispatch_if (not late) config.use_gnu_label_as_value n h)

-- For well-formed bytecode, whatever the configuration and the engine: every jump in the blocks of
-- the translated function goes to the label of a block or to an error handler that is emitted,
-- every target of the dispatch on entry is the label of a block, and the jump at the end of each
-- error handler goes to an error handler that is emitted.
pub translate_function-closed :
    (config : JitConfig) (engine : Engine) (fn : ℕ) (bytecode : List Ins) (s : FnState)
    → WellFormed bytecode
    → let f = (translate_function config engine fn bytecode s).0 in
      BlocksClosed f
      × Within (targets_of_dispatch f.dispatch) (labels_of f.blocks)
      × HandlersClosed f
unfolding translate_function
translate_function-closed config engine fn bytecode s wf = (
  translate_function-BlocksClosed config engine fn bytecode s wf,
  translate_function-DispatchClosed config engine fn bytecode s wf,
  emit_error_handlers-HandlerClosed _,
)
