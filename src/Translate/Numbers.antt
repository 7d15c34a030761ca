-- ===== src/Translate/Numbers.antt =====
-- The arguments that configure_jit_entries of src/angelsea/detail/bytecode2c.cpp gives the JIT entries.
use angelsea.Common.{
  ℕ, zero, suc, ◌+◌, ◌≤◌, ◌≡◌, refl, ap, ◌∙◌, Bool, true, false, ◌||◌, not, List, [], ◌∷◌, map, ltb,
  ◌==◌, arith, if◌then◌else◌,
}
use angelsea.Bytecode.Ins.{Ins}
use angelsea.Translate.Engine.{JitConfig, Engine}
use angelsea.Translate.Discover.{is_jit_entry}
use angelsea.Translate.Entries.{trace_after, configure_from, configure_jit_entries}
use angelsea.Translate.Function.{used_entries}

-- n numbers from k on.
abbrev pub numbers_from : ℕ → ℕ → List ℕ
numbers_from k zero = []
numbers_from k (suc n) = k ∷ numbers_from (k + 1) n

-- The arguments of the entries in use.
abbrev pub arguments : List Ins → List ℕ
arguments l = map (λ (e : ℕ × ℕ). e.0) (used_entries l)

-- The entries in use are numbered from `id` to the one before `last`.
abbrev Numbered : ℕ → List Ins × ℕ → Type 0
Numbered id r = (n : ℕ) × (arguments r.0 ≡ numbers_from id n) × (r.1 ≡ id + n)

module _ (config : JitConfig) (engine : Engine) where
  -- One instruction, by whether it is an entry and whether an entry would be in use.
  abbrev numbered_step : Bool → Bool → Bool → ℕ → Ins → List Ins → List Ins × ℕ
  numbered_step entry used s id x l =
      let (out, last) =
        configure_from config engine false (trace_after config engine x.opcode (entry || s))
          (if entry then (if used then id + 1 else id) else id) l in
      ((if entry then record x { pword0 = if used then id else 0 } else x) ∷ out, last)

  numbered_step-Numbered :
      (entry used s : Bool) (id : ℕ) (x : Ins) (l : List Ins)
      → is_jit_entry x.opcode ≡ entry
      → 1 ≤ id
      → ((s' : Bool) (k : ℕ) → 1 ≤ k → Numbered k (configure_from config engine false s' k l))
      → Numbered id (numbered_step entry used s id x l)
  unfolding used_entries
  numbered_step-Numbered true true s id x l e h f =
      let (n, args, last) = f (trace_after config engine x.opcode true) (id + 1) (omega arith) in
      let set : (id == 0) ≡ false = ground arith in
      (suc n, rw (e, set) (ap (λ t. id ∷ t) args), omega (arith, last))
  numbered_step-Numbered true false s id x l e h f =
      let (n, args, last) = f (trace_after config engine x.opcode true) id h in (n, rw e args, last)
  numbered_step-Numbered false used s id x l e h f =
      let (n, args, last) = f (trace_after config engine x.opcode s) id h in (n, rw e args, last)

  configure_from-Numbered :
      (b s : Bool) (id : ℕ) (l : List Ins)
      → 1 ≤ id
      → Numbered id (configure_from config engine b s id l)
  unfolding configure_from used_entries
  configure_from-Numbered b s id [] h = (0, refl, omega arith)
  configure_from-Numbered b s id (x ∷ l) h =
      numbered_step-Numbered (is_jit_entry x.opcode) (b || not s) s id x l refl h
        (λ s' k. configure_from-Numbered false s' k l)

-- The JIT entries in use have the arguments 1, 2, 3 and so on in the order of the bytecode, and
-- has_any_late_jit_entries says exactly whether there is more than one.
pub configure_jit_entries-numbers :
    (config : JitConfig) (engine : Engine) (bytecode : List Ins)
    → (n : ℕ) × (arguments (configure_jit_entries config engine bytecode).0 ≡ numbers_from 1 n)
      × ((configure_jit_entries config engine bytecode).1 ≡ ltb 1 n)
unfolding configure_jit_entries
configure_jit_entries-numbers config engine bytecode =
    let (n, args, last) =
      configure_from-Numbered config engine true true 1 bytecode (omega arith) in
    let shift : ltb 2 (1 + n) ≡ ltb 1 n = ground arith in (n, args, ap (λ k. ltb 2 k) last ∙ shift)
