-- ===== src/Translate/SwitchTable.antt =====
-- discover_switch_map of src/angelsea/detail/bytecode2c.cpp: the table of a switch.
use mathlib.Core.List.{append-nil, append_assoc}
use angelsea.Common.{
  ℕ, to_size_t, false, ◌≡◌, ◌≢◌, refl, sym, ap, ◌∙◌, Option, none, some, List, [], ◌∷◌, ◌++◌, map,
  ◌==◌, ==_iff, if◌then◌else◌, lookup, All, Bool-cases, inl, inr, some-inj, lookup-emplace,
  lookup-emplace_other,
}
use angelsea.Bytecode.Ins.{Ins, target_offset}
use angelsea.Translate.State.{VirtualInstruction}
use angelsea.Translate.Discover.{
  SwitchRole, switch_role, Switches, switch_step, add_target, discover_switch_map,
}

lookup-add_target :
    (k t : ℕ) (ts : List ℕ) (m : List (ℕ × List ℕ))
    → lookup k m ≡ some ts
    → lookup k (add_target k t m) ≡ some (ts ++ (t ∷ []))
unfolding add_target
lookup-add_target k t ts [] h = absurd (cc h)
lookup-add_target k t ts ((j, us) ∷ m) h = elim (Bool-cases (j == k)) [
  | inl e ↦
      let q = some-inj us ts (ap (λ b. if b then some us else lookup k m) (sym e) ∙ h) in
      rw (e, e, q) refl
  | inr e ↦
      let found = ap (λ b. if b then some us else lookup k m) (sym e) ∙ h in
      rw (e, e) (lookup-add_target k t ts m found)
]

lookup-add_target_other :
    (k j t : ℕ) (m : List (ℕ × List ℕ))
    → (j == k) ≡ false
    → lookup k (add_target j t m) ≡ lookup k m
unfolding add_target
lookup-add_target_other k j t [] n = refl
lookup-add_target_other k j t ((i, us) ∷ m) n = elim (Bool-cases (i == j)) [
  | inl e ↦ let z = ap (λ x. x == k) ((==_iff i j).0 e) ∙ n in rw (e, z) refl
  | inr e ↦ rw e (ap (λ o. if i == k then some us else o) (lookup-add_target_other k j t m n))
]

discover_switch_map-append :
    (xs ys : List Ins) (s : Switches)
    → discover_switch_map (xs ++ ys) s ≡ discover_switch_map ys (discover_switch_map xs s)
unfolding discover_switch_map
discover_switch_map-append [] ys s = refl
discover_switch_map-append (x ∷ xs) ys s =
    discover_switch_map-append xs ys (switch_step (switch_role x.opcode) x s)

-- The jumps of a table.
abbrev pub Jumps : Ins → Type 0
Jumps x = switch_role x.opcode ≡ SwitchRole.jumps

abbrev pub table_target : Ins → ℕ
table_target x = to_size_t (target_offset x)

-- The mapping of the switch at k is the current one, and has the targets `ts` so far.
Opened : ℕ → List ℕ → Switches → Type 0
Opened k ts s = (s.current ≡ some k) × (lookup k s.switch_map ≡ some ts)

-- Another mapping may be the current one.
Elsewhere : ℕ → Switches → Type 0
Elsewhere k s = (j : ℕ) → s.current ≡ some j → (j == k) ≡ false

-- A state of the pass by its parts.
abbrev switches : Option ℕ → List (ℕ × List ℕ) → List (ℕ × VirtualInstruction) → Switches
switches o m v = record { current = o; switch_map = m; overriden = v }

jump-Opened :
    (k : ℕ) (ts : List ℕ) (x : Ins) (o : Option ℕ) (m : List (ℕ × List ℕ))
    (v : List (ℕ × VirtualInstruction))
    → o ≡ some k
    → lookup k m ≡ some ts
    → Opened k (ts ++ (table_target x ∷ [])) (switch_step SwitchRole.jumps x (switches o m v))
unfolding Opened switch_step
jump-Opened k ts x none m v o found = absurd (cc o)
jump-Opened k ts x (some j) m v o found =
    let j_is = some-inj j k o in (o, rw j_is (lookup-add_target k (table_target x) ts m found))

jump-Elsewhere :
    (k : ℕ) (x : Ins) (o : Option ℕ) (m : List (ℕ × List ℕ)) (v : List (ℕ × VirtualInstruction))
    → Elsewhere k (switches o m v)
    → let s' = switch_step SwitchRole.jumps x (switches o m v) in
      Elsewhere k s' × (lookup k s'.switch_map ≡ lookup k m)
unfolding switch_step Elsewhere
jump-Elsewhere k x none m v h = (h, refl)
jump-Elsewhere k x (some j) m v h = (h, lookup-add_target_other k j (table_target x) m (h j refl))

switch_step-Elsewhere :
    (k : ℕ) (role : SwitchRole) (x : Ins) (s : Switches)
    → (x.offset == k) ≡ false
    → (role ≡ SwitchRole.jumps → Elsewhere k s)
    → let s' = switch_step role x s in
      Elsewhere k s' × (lookup k s'.switch_map ≡ lookup k s.switch_map)
unfolding switch_step Elsewhere
switch_step-Elsewhere k SwitchRole.opens x s n h = (
  λ j e. ap (λ i. i == k) (some-inj j x.offset (sym e)) ∙ n,
  lookup-emplace_other k x.offset [] s.switch_map n,
)
switch_step-Elsewhere k SwitchRole.other x s n h = (λ j e. absurd (cc e), refl)
switch_step-Elsewhere k SwitchRole.jumps x s n h =
    jump-Elsewhere k x s.current s.switch_map s.overriden (h refl)

-- Elsewhere the table stays.
discover_switch_map-Elsewhere :
    (k : ℕ) (l : List Ins) (s : Switches)
    → All (λ x. (x.offset == k) ≡ false) l
    → Elsewhere k s
    → lookup k (discover_switch_map l s).switch_map ≡ lookup k s.switch_map
unfolding discover_switch_map
discover_switch_map-Elsewhere k [] s n h = refl
discover_switch_map-Elsewhere k (x ∷ l) s (m, n) h =
    let s' = switch_step (switch_role x.opcode) x s in
    let (there, same) = switch_step-Elsewhere k (switch_role x.opcode) x s m (λ _. h) in
    discover_switch_map-Elsewhere k l s' n there ∙ same

-- Along the jumps of the table its targets are added in order.
discover_switch_map-Opened :
    (k : ℕ) (ts : List ℕ) (l : List Ins) (s : Switches)
    → All Jumps l
    → Opened k ts s
    → lookup k (discover_switch_map l s).switch_map ≡ some (ts ++ map table_target l)
unfolding discover_switch_map Opened
discover_switch_map-Opened k ts [] s j (o, found) = found ∙ ap some (sym (append-nil ts))
discover_switch_map-Opened k ts (x ∷ l) s (j, js) (o, found) =
    let s' = switch_step SwitchRole.jumps x s in
    let h = jump-Opened k ts x s.current s.switch_map s.overriden o found in
    ap (λ r. lookup k (discover_switch_map l (switch_step r x s)).switch_map) j
    ∙ discover_switch_map-Opened k (ts ++ (table_target x ∷ [])) l s' js h
    ∙ ap some (append_assoc ts (table_target x ∷ []) (map table_target l))

-- What comes behind the table is no jump.
abbrev pub EndsTable : List Ins → Type 0
EndsTable [] = Unit
EndsTable (x ∷ l) = switch_role x.opcode ≢ SwitchRole.jumps

discover_switch_map-EndsTable :
    (k : ℕ) (l : List Ins) (s : Switches)
    → All (λ x. (x.offset == k) ≡ false) l
    → EndsTable l
    → lookup k (discover_switch_map l s).switch_map ≡ lookup k s.switch_map
unfolding discover_switch_map
discover_switch_map-EndsTable k [] s n e = refl
discover_switch_map-EndsTable k (x ∷ l) s (m, n) e =
    let s' = switch_step (switch_role x.opcode) x s in
    let (there, same) =
      switch_step-Elsewhere k (switch_role x.opcode) x s m (λ jump. absurd (e jump)) in
    discover_switch_map-Elsewhere k l s' n there ∙ same

abbrev pub no_switches : Switches
no_switches = record { current = none; switch_map = []; overriden = [] }

-- The table of a switch (JMPP) in the switch map: the targets of the jumps that stand behind it, in
-- their order, no matter what stands before it and behind its jumps, other switches included, if the
-- offset of the switch is its own and no further jump follows at once.
pub discover_switch_map-table :
    (before table after : List Ins) (x : Ins)
    → switch_role x.opcode ≡ SwitchRole.opens
    → All Jumps table
    → EndsTable after
    → All (λ i. (i.offset == x.offset) ≡ false) before
    → All (λ i. (i.offset == x.offset) ≡ false) after
    → lookup x.offset
        (discover_switch_map (before ++ (x ∷ (table ++ after))) no_switches).switch_map
      ≡ some (map table_target table)
unfolding Opened Elsewhere switch_step discover_switch_map
discover_switch_map-table before table after x role jumps_ ends b a =
    let k = x.offset in
    let s = discover_switch_map before no_switches in
    let fresh : lookup k s.switch_map ≡ none =
      discover_switch_map-Elsewhere k before no_switches b (λ j e. absurd (cc e)) in
    let o = switch_step SwitchRole.opens x s in
    let opened : Opened k [] o = (refl, lookup-emplace k [] s.switch_map fresh) in
    let t = discover_switch_map table o in
    ap (λ r. lookup k r.switch_map)
      (discover_switch_map-append before (x ∷ (table ++ after)) no_switches)
    ∙ ap (λ r. lookup k (discover_switch_map (table ++ after) (switch_step r x s)).switch_map) role
    ∙ ap (λ r. lookup k r.switch_map) (discover_switch_map-append table after o)
    ∙ discover_switch_map-EndsTable k after t a ends
    ∙ discover_switch_map-Opened k [] table o jumps_ opened
