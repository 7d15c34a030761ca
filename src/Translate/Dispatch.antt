-- ===== src/Translate/Dispatch.antt =====
-- The JIT entries and the dispatch on them: configure_jit_entries and emit_entry_dispatch of
-- src/angelsea/detail/bytecode2c.cpp agree on the number of each entry.
use angelsea.Common.{
  ℕ, zero, suc, ◌+◌, ◌≤◌, ◌<◌, Bool, true, false, ◌≡◌, refl, ◌∙◌, ◌||◌, not, Option, some, List, [],
  ◌∷◌, ◌==◌, ltb, inl, inr, Bool-cases, if◌then◌else◌, lookup, get_elem?, length, arith,
}
use angelsea.Bytecode.Opcode.{Opcode}
use angelsea.Bytecode.Ins.{Ins}
use angelsea.Translate.CCode.{Dispatch}
use angelsea.Translate.Engine.{JitConfig, Engine}
use angelsea.Translate.Discover.{is_jit_entry}
use angelsea.Translate.Entries.{trace_after, configure_from, configure_jit_entries}
use angelsea.Translate.Function.{used_entries, entry_offsets, emit_entry_dispatch}
use angelsea.Translate.Safe.Closed.{WellFormed}

-- The entries carry the numbers from `id` on, in order.
abbrev pub Numbered : ℕ → List (ℕ × ℕ) → Type 0
Numbered id [] = Unit
Numbered id ((k, o) ∷ rest) = (k ≡ id) × Numbered (id + 1) rest

module _ (config : JitConfig) (engine : Engine) where
  -- What is asked of the entries found in the rest of the bytecode, when the next number is `id`.
  abbrev Counts : ℕ → List Ins × ℕ → Type 0
  Counts id r = Numbered id (used_entries r.0) × (r.1 ≡ id + length (used_entries r.0))

  entry_step :
      (is_entry used : Bool) (id : ℕ) (ins : Ins) (r : List Ins × ℕ)
      → 0 < id
      → is_jit_entry ins.opcode ≡ is_entry
      → Counts (if is_entry then (if used then id + 1 else id) else id) r
      → Counts id
          ((if is_entry then record ins { pword0 = if used then id else 0 } else ins) ∷ r.0, r.1)
  unfolding used_entries
  entry_step true true id ins r p e h =
      let z : (id == 0) ≡ false = ground arith in rw (e, z) ((refl, h.0), omega (arith, h.1))
  entry_step true false id ins r p e h = rw e h
  entry_step false used id ins r p e h = rw e h

  pub configure_from-Counts :
      (b s : Bool) (id : ℕ) (l : List Ins)
      → 0 < id
      → Counts id (configure_from config engine b s id l)
  unfolding configure_from
  configure_from-Counts b s id [] p =
      (unfold used_entries in tt, unfold used_entries in omega arith)
  configure_from-Counts b s id (ins ∷ rest) p =
      let is_entry = is_jit_entry ins.opcode in
      let used = b || not s in
      let id' = if is_entry then (if used then id + 1 else id) else id in
      let s' = trace_after config engine ins.opcode (is_entry || s) in
      entry_step is_entry used id ins (configure_from config engine false s' id' rest) p refl
        (configure_from-Counts false s' id' rest (next_pos is_entry used))
    where
      next_pos : (a u : Bool) → 0 < (if a then (if u then id + 1 else id) else id)
      next_pos true true = omega arith
      next_pos true false = p
      next_pos false u = p

-- Where the execution goes on entry with the argument `k`: the offset of the label that the
-- dispatch jumps to, or the first instruction where there is no dispatch.
pub enters : Dispatch → ℕ → Option ℕ
enters Dispatch.no_dispatch k = some 0
enters (Dispatch.label_table ts) k = get_elem? ts k
enters (Dispatch.switch_table es) k = lookup k es

-- A table of labels by position is the table of cases by number.
label-eq-case :
    (id i n : ℕ) (us : List (ℕ × ℕ))
    → id + i ≡ n
    → Numbered id us
    → get_elem? (entry_offsets us) i ≡ lookup n us
unfolding entry_offsets
label-eq-case id i n [] q h = refl
label-eq-case id zero n ((k, o) ∷ rest) q h = let e : (k == n) ≡ true = ground arith in rw e
label-eq-case id (suc i) n ((k, o) ∷ rest) q h =
    let e : (k == n) ≡ false = ground arith in
    rw e (label-eq-case (id + 1) i n rest (omega arith) h.1)

lookup-ne-zero : (id k o : ℕ) (us : List (ℕ × ℕ)) → Numbered id us → lookup k us ≡ some o → id ≤ k
lookup-ne-zero id k o [] h e = absurd (cc e)
lookup-ne-zero id k o ((j, p) ∷ rest) h e = elim (Bool-cases (j == k)) [
  | inl q ↦ ground arith
  | inr q ↦ let ih = lookup-ne-zero (id + 1) k o rest h.1 (rw q at e) in omega arith
]

-- With one entry in use, that entry is the first instruction.
module _ (config : JitConfig) (engine : Engine) (bytecode : List Ins)
    (wf : WellFormed bytecode) where
  abbrev configured : List Ins
  configured = (configure_from config engine true true 1 bytecode).0

  abbrev us : List (ℕ × ℕ)
  us = used_entries configured

  numbered : Counts config engine 1 (configure_from config engine true true 1 bytecode)
  numbered = configure_from-Counts config engine true true 1 bytecode (omega arith)

  begin-used :
      (first : Ins) (rest : List Ins)
      → first.opcode ≡ Opcode.jit_entry
      → first.offset ≡ 0
      → (tail : List (ℕ × ℕ)) × (used_entries
            (configure_from config engine true true 1 (first ∷ rest)).0
          ≡ (1, 0) ∷ tail)
  unfolding configure_from used_entries
  begin-used first rest o z = (
    used_entries
        (configure_from config engine false
          (trace_after config engine first.opcode (is_jit_entry first.opcode || true))
          (if is_jit_entry first.opcode then 2 else 1) rest).0,
    rw (o, z) refl,
  )

  single-entry : (k o : ℕ) → lookup k ((1, 0) ∷ []) ≡ some o → some 0 ≡ some o
  single-entry k o h = elim (Bool-cases (1 == k)) [
    | inl q ↦ rw q at h
    | inr q ↦ absurd (cc (rw q at h))
  ]

  only-entry :
      (k o : ℕ) (first tail : List (ℕ × ℕ))
      → first ≡ (1, 0) ∷ tail
      → length first ≤ 1
      → lookup k first ≡ some o
      → some 0 ≡ some o
  only-entry k o first [] e l h = single-entry k o (rw e at h)
  only-entry k o first (x ∷ tail) e l h =
      let m : length ((1, 0) ∷ x ∷ tail) ≤ 1 = rw e at l in absurd (omega arith)

  at_table :
      (b : Bool) (k o : ℕ)
      → lookup k us ≡ some o
      → enters
          (if b then Dispatch.label_table (0 ∷ entry_offsets us) else Dispatch.switch_table us)
          k
        ≡ some o
  unfolding enters
  at_table true zero o h = absurd (let n = lookup-ne-zero 1 zero o us numbered.0 h in omega arith)
  at_table true (suc k) o h = label-eq-case 1 k (suc k) us (omega arith) numbered.0 ∙ h
  at_table false k o h = h

  at_start : (k o : ℕ) → length us ≤ 1 → lookup k us ≡ some o → some 0 ≡ some o
  at_start k o l h =
      let (first, rest, e, j, z) = wf.begins in
      let (tail, t) = begin-used first rest j z in only-entry k o us tail (rw e t) l h

  -- For well-formed bytecode: every entry that configure_jit_entries leaves in use is entered by
  -- its argument through emit_entry_dispatch, whichever dispatch the configuration asks for.
  pub emit_entry_dispatch-enters :
      (k o : ℕ)
      → lookup k (used_entries (configure_jit_entries config engine bytecode).0) ≡ some o
      → enters
          (emit_entry_dispatch config
            (configure_jit_entries config engine bytecode).1
            (configure_jit_entries config engine bytecode).0)
          k
        ≡ some o
  unfolding configure_jit_entries emit_entry_dispatch
  emit_entry_dispatch-enters k o h =
      elim (Bool-cases (ltb 2 (configure_from config engine true true 1 bytecode).1)) [
        | inl e ↦ rw e (at_table config.use_gnu_label_as_value k o h)
        | inr e ↦ let c = numbered.1 in rw e (unfold enters in at_start k o (ground arith) h)
      ]
