-- ===== src/Translate/Elision/Handover.antt =====
-- The pushes that discover_function_call_pushes of src/angelsea/detail/bytecode2c.cpp elides, and the
-- calls that take them.
use mathlib.Core.List.{Memᴰ}
use angelsea.Common.{
  refl, [], ap, or-false, elem, ℕ, true, false, ◌≡◌, some, List, ◌∷◌, ◌++◌, map, lookup, All,
}
use angelsea.Bytecode.VarType.{VarType}
use angelsea.Bytecode.Ins.{Ins, Operand, is_system_call, push_value}
use angelsea.Translate.Engine.{JitConfig}
use angelsea.Translate.Discover.{push_offset, ends_pushes}
use angelsea.Translate.Elision.Maps.{push_entry, Typed}

abbrev pub offsets : List Ins → List ℕ
offsets l = map (λ x. x.offset) l

-- An instruction that may stand among pushes and at the call that takes them: not blacklisted, none
-- that the code falls back behind, and no branch target.
abbrev pub Inside : JitConfig → List ℕ → Ins → Type 0
Inside config targets x =
    (config.blacklisted x.opcode ≡ false)
    × (config.fallback_after x.opcode ≡ false)
    × (elem x.offset targets ≡ false)

-- A push that may be handed to a call behind it.
abbrev pub Elidable : JitConfig → List ℕ → Ins → Type 0
Elidable config targets x =
    Inside config targets x
    × (is_system_call x.opcode ≡ false)
    × (operand : Operand) × (push_value x.opcode x ≡ some operand)

pub ends_pushes-Inside :
    (config : JitConfig) (targets : List ℕ) (x : Ins)
    → ends_pushes config targets x ≡ false
    → Inside config targets x
unfolding ends_pushes
ends_pushes-Inside config targets x e =
    let (most, target) = or-false _ (elem x.offset targets) e in
    let (black, fall) =
      or-false (config.blacklisted x.opcode) (config.fallback_after x.opcode) most in
    (black, fall, target)

pub offsets-push_entry : (run : List Ins) → map push_offset (map push_entry run) ≡ offsets run
offsets-push_entry [] = refl
offsets-push_entry (x ∷ run) = ap (λ l. x.offset ∷ l) (offsets-push_entry run)

module _ (config : JitConfig) (targets : List ℕ) (whole : List Ins) where
  -- A run of pushes that the call right behind it takes: the call has their offsets in order, and
  -- each of them has a temporary of its type.
  pub record Handover (infos : List (ℕ × VarType)) (calls : List (ℕ × List ℕ)) : Type 0 where
    pub before : List Ins
    pub run : List Ins
    pub call : Ins
    pub after : List Ins
    pub splits : before ++ (run ++ (call ∷ after)) ≡ whole
    pub are_pushes : All (Elidable config targets) run
    pub call_is_inside : Inside config targets call
    pub is_call : is_system_call call.opcode ≡ true
    pub takes : lookup call.offset calls ≡ some (offsets run)
    pub typed : All (Typed infos) run

  -- Each temporary is that of a push in a run, and each call with pushes stands behind one.
  pub record Matched (infos : List (ℕ × VarType)) (calls : List (ℕ × List ℕ)) : Type 0 where
    pub taken :
        (k : ℕ) (t : VarType)
        → lookup k infos ≡ some t
        → (h : Handover infos calls) × Memᴰ (k, t) (map push_entry h.run)
    pub handed :
        (j : ℕ) (ks : List ℕ)
        → lookup j calls ≡ some ks
        → (h : Handover infos calls) × (h.call.offset ≡ j)
