-- ===== src/Translate/Safe/Targets.antt =====
-- The branch targets that discover_branch_targets finds: every jump has its target among them, and
-- all of them are instructions.
use angelsea.Common.{
  ℕ, pos, to_size_t, Bool, true, false, ◌≡◌, refl, ◌||◌, ◌&&◌, not, List, [], ◌∷◌, ◌++◌, ◌==◌, inl,
  inr, if◌then◌else◌, elem, elem-append, or_left, or_right, All, ==_refl, or-cases, elem-single,
}
use angelsea.Bytecode.Ins.{Ins, is_jump, target_offset}
use angelsea.Translate.Discover.{is_jit_entry, targets_of, discover_branch_targets}
use angelsea.Translate.Safe.Rules.{IsTarget}

-- Every element of the first set is in the second.
abbrev pub Within : List ℕ → List ℕ → Type 0
Within xs ys = (n : ℕ) → elem n xs ≡ true → elem n ys ≡ true

-- The instruction's jump, if it is one, has a branch target.
abbrev pub JumpsIn : List ℕ → Ins → Type 0
JumpsIn bt ins = is_jump ins.opcode ≡ true → IsTarget bt (target_offset ins)

Within-left : (xs ys zs : List ℕ) → Within (xs ++ ys) zs → Within xs zs
Within-left xs ys zs w n h = w n (rw elem-append (or_left (elem n xs) (elem n ys) h))

Within-right : (xs ys zs : List ℕ) → Within (xs ++ ys) zs → Within ys zs
Within-right xs ys zs w n h = w n (rw elem-append (or_right (elem n xs) (elem n ys) h))

-- The target of a jump is one of the targets that the pass takes from it.
jump-mem-targets_of :
    (ins : Ins) (n : ℕ)
    → is_jump ins.opcode ≡ true
    → target_offset ins ≡ pos n
    → elem n (targets_of ins) ≡ true
unfolding targets_of
jump-mem-targets_of ins n j e =
    rw (j, e, elem-append)
      (or_right (elem n _) (n == n || false) (or_left (n == n) false (==_refl n)))

-- A jump to an instruction.
abbrev pub JumpsTo : List ℕ → Ins → Type 0
JumpsTo offsets ins =
    is_jump ins.opcode ≡ true → (n : ℕ) × (target_offset ins ≡ pos n) × (elem n offsets ≡ true)

pub discover_branch_targets-JumpsIn :
    (offsets bt : List ℕ) (l : List Ins)
    → All (JumpsTo offsets) l
    → Within (discover_branch_targets l) bt
    → All (JumpsIn bt) l
unfolding discover_branch_targets
discover_branch_targets-JumpsIn offsets bt [] h w = tt
discover_branch_targets-JumpsIn offsets bt (ins ∷ rest) h w = (
  λ j.
      let (n, e, i) = h.0 j in
      (
        n,
        e,
        Within-left (targets_of ins) (discover_branch_targets rest) bt w n
            (jump-mem-targets_of ins n j e),
      ),
  discover_branch_targets-JumpsIn offsets bt rest h.1
      (Within-right (targets_of ins) (discover_branch_targets rest) bt w),
)

-- The branch targets are instructions.
targets_of-Within :
    (offsets : List ℕ) (ins : Ins)
    → JumpsTo offsets ins
    → elem ins.offset offsets ≡ true
    → Within (targets_of ins) offsets
unfolding targets_of
targets_of-Within offsets ins j o n h =
    elim (or-cases (elem n entry) (elem n jump) (rw elem-append at h)) [
      | inl e ↦ by_entry (is_jit_entry ins.opcode && not (ins.pword0 == 0)) e
      | inr e ↦ by_jump (is_jump ins.opcode) refl e
    ]
  where
    entry : List ℕ
    entry = if is_jit_entry ins.opcode && not (ins.pword0 == 0) then ins.offset ∷ [] else []

    jump : List ℕ
    jump = if is_jump ins.opcode then to_size_t (target_offset ins) ∷ [] else []

    by_entry :
        (b : Bool) → elem n (if b then ins.offset ∷ [] else []) ≡ true → elem n offsets ≡ true
    by_entry true e = rw (← elem-single n ins.offset e) o
    by_entry false e = absurd (cc e)

    by_jump :
        (b : Bool)
        → is_jump ins.opcode ≡ b
        → elem n (if b then to_size_t (target_offset ins) ∷ [] else []) ≡ true
        → elem n offsets ≡ true
    by_jump true b e =
        let (k, t, i) = j b in rw (← elem-single n (to_size_t (target_offset ins)) e, t) i
    by_jump false b e = absurd (cc e)

pub discover_branch_targets-Within :
    (offsets : List ℕ) (l : List Ins)
    → All (JumpsTo offsets) l
    → All (λ ins. elem ins.offset offsets ≡ true) l
    → Within (discover_branch_targets l) offsets
unfolding discover_branch_targets
discover_branch_targets-Within offsets [] j o n h = absurd (cc h)
discover_branch_targets-Within offsets (ins ∷ rest) j o n h =
    elim (or-cases (elem n (targets_of ins)) (elem n (discover_branch_targets rest))
      (rw elem-append at h)) [
        | inl e ↦ targets_of-Within offsets ins j.0 o.0 n e
        | inr e ↦ discover_branch_targets-Within offsets rest j.1 o.1 n e
      ]
