-- ===== src/Translate/Safe/Discovery.antt =====
-- What the discovery passes find: every jump that the switch map and the virtual instructions hold
-- goes to a branch target.
use mathlib.Core.Path.{subst}
use angelsea.Common.{
  ℕ, ℤ, to_size_t, true, ◌≡◌, refl, ◌||◌, Option, none, some, List, [], ◌∷◌, ◌==◌, inl, inr,
  Bool-cases, Option-cases, lookup, emplace, elem, All, All-append, some-inj,
}
use angelsea.Bytecode.Opcode.{Opcode}
use angelsea.Bytecode.VarType.{VarType}
use angelsea.Bytecode.Ins.{Ins, Operand, Comparison, is_jump, cond_expr, target_offset}
use angelsea.Translate.Engine.{JitConfig}
use angelsea.Translate.State.{VirtualInstruction}
use angelsea.Translate.Discover.{
  SwitchRole, switch_role, Switches, switch_step, add_target, discover_switch_map, Overrides,
  peephole_step, discover_peephole, fuse,
}
use angelsea.Translate.Safe.Rules.{IsTarget}
use angelsea.Translate.Safe.Targets.{JumpsIn}

-- The switch map: every target of every switch is a branch target.
abbrev pub SwitchesIn : List ℕ → List (ℕ × List ℕ) → Type 0
SwitchesIn bt [] = Unit
SwitchesIn bt ((k, ts) ∷ m) = All (λ t. elem t bt ≡ true) ts × SwitchesIn bt m

module _ (bt : List ℕ) where
  SwitchesIn-emplace :
      (k : ℕ) (m : List (ℕ × List ℕ)) → SwitchesIn bt m → SwitchesIn bt (emplace k [] m)
  SwitchesIn-emplace k m h = elim (Option-cases (lookup k m)) [
    | inl e ↦ rw (e, emplace) (tt, h)
    | inr (v, e) ↦ rw (e, emplace) h
  ]

  SwitchesIn-add_target :
      (k t : ℕ) (m : List (ℕ × List ℕ))
      → elem t bt ≡ true
      → SwitchesIn bt m
      → SwitchesIn bt (add_target k t m)
  unfolding add_target
  SwitchesIn-add_target k t [] i h = tt
  SwitchesIn-add_target k t ((j, ts) ∷ m) i h = elim (Bool-cases (j == k)) [
    | inl e ↦ rw e (All-append (λ x. elem x bt ≡ true) ts (t ∷ []) h.0 (i, tt), h.1)
    | inr e ↦ rw e (h.0, SwitchesIn-add_target k t m i h.1)
  ]

  pub SwitchesIn-lookup :
      (k : ℕ) (m : List (ℕ × List ℕ)) (ts : List ℕ)
      → SwitchesIn bt m
      → lookup k m ≡ some ts
      → All (λ t. elem t bt ≡ true) ts
  SwitchesIn-lookup k [] ts h e = absurd (cc e)
  SwitchesIn-lookup k ((j, us) ∷ m) ts h e = elim (Bool-cases (j == k)) [
    | inl q ↦ subst (All (λ t. elem t bt ≡ true)) (some-inj _ _ (rw q at e)) h.0
    | inr q ↦ SwitchesIn-lookup k m ts h.1 (rw q at e)
  ]

  switch_role-jumps : (op : Opcode) → switch_role op ≡ SwitchRole.jumps → is_jump op ≡ true
  unfolding switch_role is_jump
  switch_role-jumps Opcode.jmp h = refl
  switch_role-jumps Opcode.jmpp h = absurd (cc h)
  switch_role-jumps _ h = absurd (cc h)

  -- Before the peephole pass only jumps of a switch's table are overridden, by no code at all.
  abbrev pub VirtualIn : VirtualInstruction → Type 0
  VirtualIn (VirtualInstruction.fused_compare_jump o op t) = IsTarget bt t
  VirtualIn VirtualInstruction.nop = Unit

  abbrev pub OverridesIn : Overrides → Type 0
  OverridesIn [] = Unit
  OverridesIn ((k, v) ∷ m) = VirtualIn v × OverridesIn m

  OverridesIn-emplace :
      (k : ℕ) (v : VirtualInstruction) (m : Overrides)
      → VirtualIn v
      → OverridesIn m
      → OverridesIn (emplace k v m)
  OverridesIn-emplace k v m i h = elim (Option-cases (lookup k m)) [
    | inl e ↦ rw (e, emplace) (i, h)
    | inr (w, e) ↦ rw (e, emplace) h
  ]

  pub OverridesIn-lookup :
      (k : ℕ) (m : Overrides) (v : VirtualInstruction)
      → OverridesIn m
      → lookup k m ≡ some v
      → VirtualIn v
  OverridesIn-lookup k [] v h e = absurd (cc e)
  OverridesIn-lookup k ((j, w) ∷ m) v h e = elim (Bool-cases (j == k)) [
    | inl q ↦ subst VirtualIn (some-inj _ _ (rw q at e)) h.0
    | inr q ↦ OverridesIn-lookup k m v h.1 (rw q at e)
  ]

  abbrev SwitchesOk : Switches → Type 0
  SwitchesOk s = SwitchesIn bt s.switch_map × OverridesIn s.overriden

  to_size_t-elem : (z : ℤ) → IsTarget bt z → elem (to_size_t z) bt ≡ true
  to_size_t-elem z (n, e, i) = rw e i

  switch_step-SwitchesOk :
      (role : SwitchRole) (ins : Ins) (s : Switches)
      → (role ≡ SwitchRole.jumps → IsTarget bt (target_offset ins))
      → SwitchesOk s
      → SwitchesOk (switch_step role ins s)
  unfolding switch_step
  switch_step-SwitchesOk SwitchRole.opens ins s j h =
      (SwitchesIn-emplace ins.offset s.switch_map h.0, h.1)
  switch_step-SwitchesOk SwitchRole.jumps ins s j h = elim (Option-cases s.current) [
    | inl e ↦ rw (e, switch_step) h
    | inr (k, e) ↦
        rw (e, switch_step)
          (
            SwitchesIn-add_target k _ s.switch_map (to_size_t-elem _ (j refl)) h.0,
            OverridesIn-emplace ins.offset VirtualInstruction.nop s.overriden tt h.1,
          )
  ]
  switch_step-SwitchesOk SwitchRole.other ins s j h = h

  pub discover_switch_map-SwitchesOk :
      (l : List Ins) (s : Switches)
      → All (JumpsIn bt) l
      → SwitchesOk s
      → SwitchesOk (discover_switch_map l s)
  unfolding discover_switch_map
  discover_switch_map-SwitchesOk [] s j h = h
  discover_switch_map-SwitchesOk (ins ∷ rest) s j h =
      discover_switch_map-SwitchesOk rest (switch_step (switch_role ins.opcode) ins s) j.1 (
        switch_step-SwitchesOk (switch_role ins.opcode) ins s
          (λ e. j.0 (switch_role-jumps ins.opcode e)) h)

  cond_expr-is_jump :
      (op : Opcode) {p : VarType × Comparison} → cond_expr op ≡ some p → is_jump op ≡ true
  unfolding cond_expr is_jump
  cond_expr-is_jump Opcode.jz h = refl
  cond_expr-is_jump Opcode.j_low_z h = refl
  cond_expr-is_jump Opcode.jnz h = refl
  cond_expr-is_jump Opcode.j_low_nz h = refl
  cond_expr-is_jump Opcode.js h = refl
  cond_expr-is_jump Opcode.jns h = refl
  cond_expr-is_jump Opcode.jp h = refl
  cond_expr-is_jump Opcode.jnp h = refl
  cond_expr-is_jump _ h = absurd (cc h)

  fuse-OverridesIn :
      (it next : Ins) (o : Option (Operand × Operand)) (p : Option (VarType × Comparison))
      (m : Overrides)
      → ((q : VarType × Comparison) → p ≡ some q → IsTarget bt (target_offset next))
      → OverridesIn m
      → OverridesIn (fuse it next o p m)
  fuse-OverridesIn it next (some o) (some (t, op)) m j h =
      OverridesIn-emplace next.offset (VirtualInstruction.fused_compare_jump o op _)
        (emplace it.offset VirtualInstruction.nop m) (j (t, op) refl)
        (OverridesIn-emplace it.offset VirtualInstruction.nop m tt h)
  fuse-OverridesIn it next (some o) none m j h = h
  fuse-OverridesIn it next none p m j h = h

  peephole_step-OverridesIn :
      (config : JitConfig) (it next : Ins) (m : Overrides)
      → JumpsIn bt next
      → OverridesIn m
      → OverridesIn (peephole_step config it next m)
  unfolding peephole_step
  peephole_step-OverridesIn config it next m j h =
      elim (Bool-cases (config.blacklisted it.opcode || config.blacklisted next.opcode)) [
        | inl e ↦ rw e h
        | inr e ↦ rw e (
            fuse-OverridesIn it next _ (cond_expr next.opcode) m
              (λ q c. j (cond_expr-is_jump next.opcode c)) h)
      ]

  pub discover_peephole-OverridesIn :
      (config : JitConfig) (l : List Ins) (m : Overrides)
      → All (JumpsIn bt) l
      → OverridesIn m
      → OverridesIn (discover_peephole config l m)
  unfolding discover_peephole
  discover_peephole-OverridesIn config [] m j h = h
  discover_peephole-OverridesIn config (it ∷ []) m j h = h
  discover_peephole-OverridesIn config (it ∷ next ∷ rest) m j h =
      discover_peephole-OverridesIn config (next ∷ rest) (peephole_step config it next m) j.1
        (peephole_step-OverridesIn config it next m j.1.0 h)
