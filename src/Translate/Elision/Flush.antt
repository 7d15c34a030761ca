-- ===== src/Translate/Elision/Flush.antt =====
-- What happens to elided pushes in src/angelsea/detail/bytecode2c.cpp: emit_stack_push_ins stores their
-- values in temporaries, and flush_stack_push_optimization pushes these before the call.
use mathlib.Core.List.{append_assoc, append-nil}
use mathlib.Core.Path.{subst}
use angelsea.Common.{
  All-map, Bool, ℕ, ◌≡◌, sym, ap, ◌∙◌, none, some, List, [], ◌∷◌, ◌++◌, lookup, All, if-intro,
}
use angelsea.Bytecode.VarType.{VarType}
use angelsea.Bytecode.Ins.{Ins}
use angelsea.Translate.CCode.{Name, Expr, Stmt}
use angelsea.Translate.State.{Discovered, Ctx, FnState, M, ◌>>◌, pure, emit}
use angelsea.Translate.Emit.{
  emit_stack_push, store_push, flush_pushes, flush_stack_push_optimization,
}
use angelsea.Translate.Discover.{Pushes, discover_branch_targets}
use angelsea.Translate.Function.{discover}
use angelsea.Translate.Engine.{JitConfig}
use angelsea.Translate.Elision.Maps.{pushed_type, Distinct, Typed}
use angelsea.Translate.Elision.Handover.{offsets, Handover, Matched}
use angelsea.Translate.Elision.Pass.{discover_function_call_pushes-Matched}
use angelsea.Semantics.Locals.{code_of}

-- The state from which code is collected.
abbrev pub no_code : FnState → FnState
no_code s = record s { code = [] }

-- The code that pushes the temporaries of a run, in its order.
abbrev pub restored : FnState → List Ins → List Stmt
restored s [] = []
restored s (x ∷ run) =
    code_of (emit_stack_push (Expr.local_var (Name.push_tmp x.offset)) (pushed_type x)) s
    ++ restored s run

-- Only code is added.
Adds : M (Unit {0}) → List Stmt → Type 0
Adds m l = (s : FnState) → m s ≡ (tt, record s { code = s.code ++ l })

Adds-then : (m n : M (Unit {0})) (k l : List Stmt) → Adds m k → Adds n l → Adds (m >> n) (k ++ l)
unfolding Adds ◌>>◌
Adds-then m n k l h g s =
    ap (λ r. n r.1) (h s)
    ∙ g (record s { code = s.code ++ k })
    ∙ ap (λ c. (tt, record s { code = c })) (append_assoc s.code k l)

module _ (s₀ : FnState) where
  emit_stack_push-Adds :
      (e : Expr) (t : VarType) → Adds (emit_stack_push e t) (code_of (emit_stack_push e t) s₀)
  unfolding Adds emit_stack_push ◌>>◌ emit
  emit_stack_push-Adds e t s = ap (λ l. (tt, record s { code = l })) (append_assoc s.code _ _)

  flush_pushes-Adds :
      (c : Ctx) (run : List Ins)
      → All (Typed c.found.stack_push_infos) run
      → Adds (flush_pushes c (offsets run)) (restored s₀ run)
  unfolding Adds flush_pushes pure
  flush_pushes-Adds c [] h s = ap (λ l. (tt, record s { code = l })) (sym (append-nil s.code))
  flush_pushes-Adds c (x ∷ run) h s =
      let push = emit_stack_push (Expr.local_var (Name.push_tmp x.offset)) (pushed_type x) in
      ap
        (λ o.
          (elim o [
            | none ↦ pure tt
            | some t ↦ emit_stack_push (Expr.local_var (Name.push_tmp x.offset)) t
          ]
              >> flush_pushes c (offsets run))
            s)
        h.0
      ∙ Adds-then push (flush_pushes c (offsets run)) (code_of push s₀) (restored s₀ run)
          (emit_stack_push-Adds _ _) (flush_pushes-Adds c run h.1) s

-- The matching of temporaries and calls in the state that translate_function starts from, whether
-- pushes are elided or not.
discover-Matched :
    (config : JitConfig) (late : Bool) (original bytecode : List Ins)
    → Distinct bytecode
    → let found = discover config late original bytecode in
      Matched config
        (discover_branch_targets bytecode)
        bytecode
        found.stack_push_infos
        found.fn_to_stack_push
unfolding discover
discover-Matched config late original bytecode d =
    if-intro
      (λ (p : Pushes).
        Matched config (discover_branch_targets bytecode) bytecode p.stack_push_infos
          p.fn_to_stack_push)
      config.experimental_stack_elision _ _
      (λ _.
        discover_function_call_pushes-Matched config (discover_branch_targets bytecode) bytecode d)
      (λ _. record { taken = λ k t e. absurd (cc e); handed = λ j ks e. absurd (cc e) })

-- The code that stores the pushed value `v`.
store_push-elided :
    (c : Ctx) (t u : VarType) (s : FnState)
    → lookup c.ins.offset c.found.stack_push_infos ≡ some u
    → code_of (store_push c t) s
      ≡ Stmt.assign (Expr.local_var (Name.push_tmp c.ins.offset)) (Expr.local_var Name.v) ∷ []
unfolding store_push emit
store_push-elided c t u s e =
    ap
      (λ o.
        code_of
          (elim o [
            | some _ ↦
                emit (
                  Stmt.assign (Expr.local_var (Name.push_tmp c.ins.offset)) (Expr.local_var Name.v))
            | none ↦ emit_stack_push (Expr.local_var Name.v) t
          ])
          s)
      e

-- In the translation of bytecode whose offsets are distinct: a call with elided pushes stands right
-- behind a run of pushes. Each of them stores its value in its temporary, whatever the value's type,
-- and where the call flushes them, its code pushes these temporaries in the order of the run, each
-- with the type of the push and no others.
pub flush_stack_push_optimization-restores :
    (c : Ctx) (late : Bool) (original bytecode : List Ins) (ks : List ℕ) (s : FnState)
    → Distinct bytecode
    → c.found ≡ discover c.config late original bytecode
    → lookup c.ins.offset c.found.fn_to_stack_push ≡ some ks
    → (h : Handover c.config
        (discover_branch_targets bytecode)
        bytecode
        c.found.stack_push_infos
        c.found.fn_to_stack_push)
      × (h.call.offset ≡ c.ins.offset)
      × (code_of (flush_stack_push_optimization c) s ≡ restored s h.run)
      × All
          (λ x.
            (t : VarType) (s' : FnState)
            → code_of (store_push (record c { ins = x }) t) s'
              ≡ Stmt.assign (Expr.local_var (Name.push_tmp x.offset)) (Expr.local_var Name.v) ∷ [])
          h.run
unfolding Adds flush_stack_push_optimization
flush_stack_push_optimization-restores c late original bytecode ks s d found e =
    let all = discover-Matched c.config late original bytecode d in
    let matched =
      subst
        (λ (f : Discovered).
          Matched c.config (discover_branch_targets bytecode) bytecode f.stack_push_infos
            f.fn_to_stack_push)
        (sym found) all in
    let (h, here) = matched.handed c.ins.offset ks e in
    let takes : lookup c.ins.offset c.found.fn_to_stack_push ≡ some (offsets h.run) =
      ap (λ k. lookup k c.found.fn_to_stack_push) (sym here) ∙ h.takes in
    (
      h,
      here,
      ap (λ o. code_of (elim o [ none ↦ pure tt | some pushes ↦ flush_pushes c pushes ]) s) takes
          ∙ ap (λ (r : Unit × FnState). r.1.code)
              (flush_pushes-Adds s c h.run h.typed (record s { code = [] })),
      All-map (Typed c.found.stack_push_infos) _ h.run
          (λ x q t s'. store_push-elided (record c { ins = x }) t (pushed_type x) s' q) h.typed,
    )
