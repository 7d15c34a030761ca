-- ===== src/Translate/Discover.antt =====
-- The discovery passes over the bytecode before any code is emitted: discover_switch_map,
-- discover_branch_targets, discover_function_call_pushes and discover_peephole of
-- src/angelsea/detail/bytecode2c.cpp.
use angelsea.Common.{
  ℕ, to_size_t, Bool, true, false, ◌&&◌, ◌||◌, not, Option, none, some, List, [], ◌∷◌, ◌++◌, map,
  ◌==◌, if◌then◌else◌, elem, emplace,
}
use angelsea.Bytecode.Opcode.{Opcode}
use angelsea.Bytecode.VarType.{VarType}
use angelsea.Bytecode.Ins.{
  Ins, Operand, Comparison, is_jump, cond_expr, target_offset, operand_type, push_value,
  compare_operands, is_system_call,
}
use angelsea.Translate.Engine.{JitConfig}
use angelsea.Translate.State.{VirtualInstruction}

abbrev pub is_jit_entry : Opcode → Bool
is_jit_entry Opcode.jit_entry = true
is_jit_entry _ = false

-- What the opcode is to discover_switch_map.
pub data SwitchRole : Type 0 where
  opens jumps other : SwitchRole

unfoldable pub switch_role : Opcode → SwitchRole
switch_role Opcode.jmpp = SwitchRole.opens
switch_role Opcode.jmp = SwitchRole.jumps
switch_role _ = SwitchRole.other

-- `current_mapping->emplace_back(…)`: the mapping of this switch gets one more target.
unfoldable pub add_target : ℕ → ℕ → List (ℕ × List ℕ) → List (ℕ × List ℕ)
add_target k t [] = []
add_target k t ((j, ts) ∷ m) =
    if j == k then (j, ts ++ (t ∷ [])) ∷ m else (j, ts) ∷ add_target k t m

pub record Switches : Type 0 where
  pub current : Option ℕ  -- current_mapping, by its key
  pub switch_map : List (ℕ × List ℕ)
  pub overriden : List (ℕ × VirtualInstruction)

unfoldable pub switch_step : SwitchRole → Ins → Switches → Switches
switch_step SwitchRole.opens ins s = record s {
  current = some ins.offset;
  switch_map = emplace ins.offset [] s.switch_map;
}
switch_step SwitchRole.jumps ins s = elim s.current [
  | none ↦ s
  | some k ↦ record s {
    switch_map = add_target k (to_size_t (target_offset ins)) s.switch_map;
    overriden = emplace ins.offset VirtualInstruction.nop s.overriden;
  }
]
switch_step SwitchRole.other ins s = record s { current = none }

-- discover_switch_map: the jumps that follow a switch at once are its table.
unfoldable pub discover_switch_map : List Ins → Switches → Switches
discover_switch_map [] s = s
discover_switch_map (ins ∷ rest) s =
    discover_switch_map rest (switch_step (switch_role ins.opcode) ins s)

-- discover_branch_targets: the JIT entries in use and the targets of all jumps.
unfoldable pub targets_of : Ins → List ℕ
targets_of ins =
    (if is_jit_entry ins.opcode && not (ins.pword0 == 0) then ins.offset ∷ [] else [])
    ++ (if is_jump ins.opcode then to_size_t (target_offset ins) ∷ [] else [])

unfoldable pub discover_branch_targets : List Ins → List ℕ
discover_branch_targets [] = []
discover_branch_targets (ins ∷ rest) = targets_of ins ++ discover_branch_targets rest

pub record Pushes : Type 0 where
  pub current : List (ℕ × VarType)
  pub stack_push_infos : List (ℕ × VarType)
  pub fn_to_stack_push : List (ℕ × List ℕ)

abbrev pub emplace_all : List (ℕ × VarType) → List (ℕ × VarType) → List (ℕ × VarType)
emplace_all [] m = m
emplace_all ((k, t) ∷ rest) m = emplace_all rest (emplace k t m)

abbrev pub push_offset : ℕ × VarType → ℕ
push_offset (k, t) = k

-- Whether pushes before the instruction cannot be handed to a call behind it.
unfoldable pub ends_pushes : JitConfig → List ℕ → Ins → Bool
ends_pushes config branch_targets ins =
    config.blacklisted ins.opcode
    || config.fallback_after ins.opcode
    || elem ins.offset branch_targets

unfoldable pub push_step : JitConfig → List ℕ → Ins → Pushes → Pushes
push_step config branch_targets ins p =
    if ends_pushes config branch_targets ins
    then record p { current = [] }
    else if is_system_call ins.opcode
    then record {
      current = [];
      stack_push_infos = emplace_all p.current p.stack_push_infos;
      fn_to_stack_push = emplace ins.offset (map push_offset p.current) p.fn_to_stack_push;
    }
    else elim (push_value ins.opcode ins) [
      | some operand ↦ record p { current = p.current ++ ((ins.offset, operand_type operand) ∷ []) }
      | none ↦ record p { current = [] }
    ]

unfoldable pub discover_function_call_pushes : JitConfig → List ℕ → List Ins → Pushes → Pushes
discover_function_call_pushes config branch_targets [] p = p
discover_function_call_pushes config branch_targets (ins ∷ rest) p =
    discover_function_call_pushes config branch_targets rest (push_step config branch_targets ins p)

abbrev pub Overrides : Type 0
Overrides = List (ℕ × VirtualInstruction)

abbrev pub fuse :
    Ins → Ins → Option (Operand × Operand) → Option (VarType × Comparison) → Overrides → Overrides
fuse it next (some operands) (some (t, op)) m =
    emplace next.offset (VirtualInstruction.fused_compare_jump operands op (target_offset next))
      (emplace it.offset VirtualInstruction.nop m)
fuse it next _ _ m = m

-- A comparison and the conditional jump right behind it become one virtual instruction.
unfoldable pub peephole_step : JitConfig → Ins → Ins → Overrides → Overrides
peephole_step config it next m =
    if config.blacklisted it.opcode || config.blacklisted next.opcode
    then m
    else fuse it next (compare_operands it.opcode it) (cond_expr next.opcode) m

unfoldable pub discover_peephole : JitConfig → List Ins → Overrides → Overrides
discover_peephole config [] m = m
discover_peephole config (it ∷ []) m = m
discover_peephole config (it ∷ next ∷ rest) m =
    discover_peephole config (next ∷ rest) (peephole_step config it next m)
