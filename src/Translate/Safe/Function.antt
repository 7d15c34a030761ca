-- ===== src/Translate/Safe/Function.antt =====
-- The blocks and error handlers of a translated function, for what the discovery passes found.
use angelsea.Common.{
  some, ◌||◌, ℕ, Bool, true, false, ◌≡◌, List, [], ◌∷◌, ◌==◌, inl, inr, Bool-cases, if◌then◌else◌,
  elem, or_left, or_right, All, All-map, ==_iff, ==_refl,
}
use angelsea.Bytecode.Ins.{Ins}
use angelsea.Translate.CCode.{Handler, HandlerBlock, Block}
use angelsea.Translate.Engine.{JitConfig, Engine}
use angelsea.Translate.State.{Discovered, Ctx, FnState, same_handler}
use angelsea.Translate.Safe.Numbering.{offsets_of}
use angelsea.Translate.Instruction.{instruction_body, translate_instruction}
use angelsea.Translate.Function.{translate_instructions}
use angelsea.Translate.Safe.Rules.{IsSafe, IsSafe-mono, Grows}
use angelsea.Translate.Safe.Instruction.{JumpsFound, Keeps-instruction_body}

-- The labels `bc{}` of the blocks.
abbrev pub labels_of : List Block → List ℕ
labels_of [] = []
labels_of (b ∷ bs) = if b.labelled then b.offset ∷ labels_of bs else labels_of bs

abbrev pub has_handler : List HandlerBlock → Handler → Bool
has_handler [] h = false
has_handler (b ∷ bs) h = same_handler b.label h || has_handler bs h

-- The jump of a handler goes to one of these.
abbrev pub HandlerClosed : List HandlerBlock → HandlerBlock → Type 0
HandlerClosed bs b = (h : Handler) → b.goes_to ≡ some h → has_handler bs h ≡ true

label_here :
    (x n : ℕ) (bt ls : List ℕ)
    → (x == n) ≡ true
    → elem n bt ≡ true
    → elem n (if elem x bt then x ∷ ls else ls) ≡ true
label_here x n bt ls e b = rw ((==_iff x n).0 e) (rw b (or_left (n == n) (elem n ls) (==_refl n)))

label_there :
    (b : Bool) (x n : ℕ) (ls : List ℕ) → elem n ls ≡ true → elem n (if b then x ∷ ls else ls) ≡ true
label_there true x n ls h = or_right (x == n) (elem n ls) h
label_there false x n ls h = h

module _ (config : JitConfig) (engine : Engine) (fn : ℕ) (found : Discovered) where
  abbrev pub ctx : Ins → Ctx
  ctx ins = record { config = config; engine = engine; fn = fn; found = found; ins = ins }

  abbrev pub BlockSafe : (Handler → Bool) → Block → Type 0
  BlockSafe mask b = All (IsSafe found.branch_targets mask) b.body

  -- The blocks are safe for the mask that the whole function leaves.
  pub translate_instructions-safe :
      (l : List Ins) (s : FnState)
      → All (λ ins. JumpsFound found.branch_targets (ctx ins)) l
      → let (blocks, last) = translate_instructions config engine fn found l s in
        Grows s.mask last.mask × All (BlockSafe last.mask) blocks
  unfolding translate_instructions translate_instruction
  translate_instructions-safe [] s h = (λ x p. p, tt)
  translate_instructions-safe (ins ∷ rest) s h =
      let start : FnState = record s { code = [] } in
      let done = (instruction_body (ctx ins) start).1 in
      let k = Keeps-instruction_body found.branch_targets (ctx ins) h.0 in
      let ih = translate_instructions-safe rest done h.1 in
      (
        λ x p. ih.0 x (k.grows start x p),
        (
          All-map (IsSafe found.branch_targets done.mask) _ done.code
              (IsSafe-mono found.branch_targets done.mask _ ih.0) (k.safe start tt),
          ih.1,
        ),
      )

  -- An instruction that is a branch target has its label.
  pub translate_instructions-labels :
      (n : ℕ) (l : List Ins) (s : FnState)
      → elem n found.branch_targets ≡ true
      → elem n (offsets_of l) ≡ true
      → elem n (labels_of (translate_instructions config engine fn found l s).0) ≡ true
  unfolding translate_instructions translate_instruction
  translate_instructions-labels n [] s b h = h
  translate_instructions-labels n (ins ∷ rest) s b h =
      let s' = (translate_instruction (ctx ins) s).1 in
      elim (Bool-cases (ins.offset == n)) [
        | inl e ↦ label_here ins.offset n found.branch_targets _ e b
        | inr e ↦
            label_there (elem ins.offset found.branch_targets) ins.offset n _
              (translate_instructions-labels n rest s' b (rw e at h))
      ]
