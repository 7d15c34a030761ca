-- ===== src/Translate/Safe/Numbering.antt =====
-- Numbering the JIT entries changes nothing of the bytecode but their arguments.
use mathlib.Core.Path.{ap₂}
use angelsea.Common.{ℕ, Bool, true, false, ◌≡◌, refl, List, [], ◌∷◌, if◌then◌else◌, All}
use angelsea.Bytecode.Ins.{Ins}
use angelsea.Translate.Engine.{JitConfig, Engine}
use angelsea.Translate.Discover.{is_jit_entry}
use angelsea.Translate.Entries.{configure_from}

abbrev pub offsets_of : List Ins → List ℕ
offsets_of [] = []
offsets_of (ins ∷ rest) = ins.offset ∷ offsets_of rest

module _ (config : JitConfig) (engine : Engine) where
  module _ (Q : Ins → Type 0) where
    keep_if : (b : Bool) (x y : Ins) → Q x → Q y → Q (if b then x else y)
    keep_if true x y p q = p
    keep_if false x y p q = q

    pub configure_from-All :
        ((ins : Ins) (k : ℕ) → Q ins → Q (record ins { pword0 = k }))
        → (b s : Bool) (id : ℕ) (l : List Ins) → All Q l
        → All Q (configure_from config engine b s id l).0
    unfolding configure_from
    configure_from-All inv b s id [] h = tt
    configure_from-All inv b s id (ins ∷ rest) h = (
      keep_if (is_jit_entry ins.opcode) _ ins (inv ins _ h.0) h.0,
      configure_from-All inv false _ _ rest h.1,
    )

    back_if : (b : Bool) (x y : Ins) → (Q x → Q y) → Q (if b then x else y) → Q y
    back_if true x y f q = f q
    back_if false x y f q = q

    pub All-configure_from :
        ((ins : Ins) (k : ℕ) → Q (record ins { pword0 = k }) → Q ins)
        → (b s : Bool) (id : ℕ) (l : List Ins) → All Q (configure_from config engine b s id l).0
        → All Q l
    unfolding configure_from
    All-configure_from inv b s id [] h = tt
    All-configure_from inv b s id (ins ∷ rest) h = (
      back_if (is_jit_entry ins.opcode) _ ins (inv ins _) h.0,
      All-configure_from inv false _ _ rest h.1,
    )

  offset_if :
      (b : Bool) (ins : Ins) (k : ℕ)
      → (if b then record ins { pword0 = k } else ins).offset ≡ ins.offset
  offset_if true ins k = refl
  offset_if false ins k = refl

  pub offsets_of-configure_from :
      (b s : Bool) (id : ℕ) (l : List Ins)
      → offsets_of (configure_from config engine b s id l).0 ≡ offsets_of l
  unfolding configure_from
  offsets_of-configure_from b s id [] = refl
  offsets_of-configure_from b s id (ins ∷ rest) =
      ap₂ ◌∷◌ (offset_if _ ins _) (offsets_of-configure_from false _ _ rest)
