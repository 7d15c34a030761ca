-- ===== src/Translate/Safe/Rules.antt =====
-- The jumps of a statement have labels: those to instructions are branch targets, those to error
-- handlers are in the mask of handlers that are needed. `Keeps` says that an emitting function
-- adds only such statements, and takes no handler off the mask.
use angelsea.Common.{
  ℕ, ℤ, pos, Bool, true, ◌≡◌, refl, ◌||◌, or_left, List, [], ◌∷◌, inl, inr, Bool-cases,
  if◌then◌else◌, elem, All, All-append, All-map,
}
use angelsea.Translate.CCode.{Handler, Symbol, Expr, Stmt, Forward}
use angelsea.Translate.State.{
  Ctx, ExternKind, FnState, M, ◌>>=◌, ◌>>◌, pure, when, emit, has_symbol, same_handler, mark,
  fail_when, count_fallback, emit_vm_fallback, emit_forward_declaration, map_extern,
  next_string_constant, next_type_info,
}

-- The offset is one of the branch targets.
abbrev pub IsTarget : List ℕ → ℤ → Type 0
IsTarget bt z = (n : ℕ) × (z ≡ pos n) × (elem n bt ≡ true)

abbrev pub IsSafe : List ℕ → (Handler → Bool) → Stmt → Type 0
IsSafe bt mask (Stmt.fail_if e n h) = mask h ≡ true
IsSafe bt mask (Stmt.jump_handler n h) = mask h ≡ true
IsSafe bt mask (Stmt.goto_bc t) = IsTarget bt t
IsSafe bt mask (Stmt.branch e expect t) = IsTarget bt t
IsSafe bt mask (Stmt.switch_goto e ts) = All (λ t. elem t bt ≡ true) ts
IsSafe bt mask _ = Unit

-- A statement with no jump.
abbrev pub is_plain : Stmt → Bool
is_plain (Stmt.text _) = true
is_plain (Stmt.declare _ _ _) = true
is_plain (Stmt.assign _ _) = true
is_plain (Stmt.effect _) = true
is_plain _ = Bool.false

-- The mask only grows.
abbrev pub Grows : (Handler → Bool) → (Handler → Bool) → Type 0
Grows m n = (h : Handler) → m h ≡ true → n h ≡ true

pub IsSafe-mono :
    (bt : List ℕ) (m n : Handler → Bool) → Grows m n → (st : Stmt) → IsSafe bt m st → IsSafe bt n st
IsSafe-mono bt m n g (Stmt.fail_if e k h) s = g h s
IsSafe-mono bt m n g (Stmt.jump_handler k h) s = g h s
IsSafe-mono bt m n g (Stmt.goto_bc t) s = s
IsSafe-mono bt m n g (Stmt.branch e expect t) s = s
IsSafe-mono bt m n g (Stmt.switch_goto e ts) s = s
IsSafe-mono bt m n g (Stmt.text _) s = tt
IsSafe-mono bt m n g (Stmt.declare _ _ _) s = tt
IsSafe-mono bt m n g (Stmt.assign _ _) s = tt
IsSafe-mono bt m n g (Stmt.effect _) s = tt

pub plain-IsSafe :
    (bt : List ℕ) (m : Handler → Bool) (st : Stmt) → is_plain st ≡ true → IsSafe bt m st
plain-IsSafe bt m (Stmt.text _) h = tt
plain-IsSafe bt m (Stmt.declare _ _ _) h = tt
plain-IsSafe bt m (Stmt.assign _ _) h = tt
plain-IsSafe bt m (Stmt.effect _) h = tt
plain-IsSafe bt m (Stmt.fail_if e k x) h = absurd (cc h)
plain-IsSafe bt m (Stmt.jump_handler k x) h = absurd (cc h)
plain-IsSafe bt m (Stmt.goto_bc t) h = absurd (cc h)
plain-IsSafe bt m (Stmt.branch e expect t) h = absurd (cc h)
plain-IsSafe bt m (Stmt.switch_goto e ts) h = absurd (cc h)

abbrev pub AllSafe : List ℕ → FnState → Type 0
AllSafe bt s = All (IsSafe bt s.mask) s.code

pub record Keeps (bt : List ℕ) {A : Type 0} (m : M A) : Type 0 where
  pub safe : (s : FnState) → AllSafe bt s → AllSafe bt (m s).1
  pub grows : (s : FnState) → Grows s.mask (m s).1.mask

module _ (bt : List ℕ) where
  pub Keeps-bind :
      {A B : Type 0} (m : M A) (f : A → M B)
      → Keeps bt m
      → ((a : A) → Keeps bt (f a))
      → Keeps bt (m >>= f)
  unfolding ◌>>=◌
  Keeps-bind m f k l = record {
    safe = λ s h. (l (m s).0).safe (m s).1 (k.safe s h);
    grows = λ s x h. (l (m s).0).grows (m s).1 x (k.grows s x h);
  }

  pub Keeps-then :
      {B : Type 0} (m : M (Unit {0})) (k : M B) → Keeps bt m → Keeps bt k → Keeps bt (m >> k)
  unfolding ◌>>◌
  Keeps-then m n k l = record {
    safe = λ s h. l.safe (m s).1 (k.safe s h);
    grows = λ s x h. l.grows (m s).1 x (k.grows s x h);
  }

  pub Keeps-pure : {A : Type 0} (a : A) → Keeps bt (pure a)
  unfolding pure
  Keeps-pure a = record { safe = λ s h. h; grows = λ s x h. h }

  pub Keeps-when : (b : Bool) (m : M (Unit {0})) → Keeps bt m → Keeps bt (when b m)
  unfolding when
  Keeps-when true m k = record { safe = λ s h. k.safe s h; grows = λ s x h. k.grows s x h }
  Keeps-when Bool.false m k = record { safe = λ s h. h; grows = λ s x h. h }

  pub Keeps-if :
      {A : Type 0} (b : Bool) (m n : M A) → Keeps bt m → Keeps bt n → Keeps bt (if b then m else n)
  Keeps-if true m n k l = k
  Keeps-if Bool.false m n k l = l

  -- A statement that is safe whatever the mask.
  pub Keeps-emit_safe : (st : Stmt) → ((m : Handler → Bool) → IsSafe bt m st) → Keeps bt (emit st)
  unfolding emit
  Keeps-emit_safe st p = record {
    safe = λ s h. All-append (IsSafe bt s.mask) s.code (st ∷ []) h (p s.mask, tt);
    grows = λ s x h. h;
  }

  pub Keeps-emit : (st : Stmt) → is_plain st ≡ true → Keeps bt (emit st)
  Keeps-emit st p = Keeps-emit_safe st (λ m. plain-IsSafe bt m st p)

  same_handler_refl : (h : Handler) → same_handler h h ≡ true
  same_handler_refl Handler.vm_fallback = refl
  same_handler_refl Handler.err_null = refl
  same_handler_refl Handler.err_divide_by_zero = refl
  same_handler_refl Handler.err_divide_overflow = refl

  or_true : (b : Bool) → (b || true) ≡ true
  or_true true = refl
  or_true Bool.false = refl

  pub Keeps-mark : (h : Handler) → Keeps bt (mark h)
  unfolding mark
  Keeps-mark h = record {
    safe = λ s p.
        All-map (IsSafe bt s.mask) _ s.code
          (IsSafe-mono bt s.mask _ (λ x q. or_left (s.mask x) (same_handler h x) q)) p;
    grows = λ s x q. or_left (s.mask x) (same_handler h x) q;
  }

  -- A jump to a handler, once that handler is marked.
  Keeps-jump :
      (h : Handler) (st : Stmt)
      → ((m : Handler → Bool) → m h ≡ true → IsSafe bt m st)
      → Keeps bt (mark h >> emit st)
  unfolding ◌>>◌ mark emit
  Keeps-jump h st p = record {
    safe = λ s q.
        let s' = (mark h s).1 in
        All-append (IsSafe bt s'.mask) s'.code (st ∷ []) ((Keeps-mark h).safe s q)
          (p s'.mask (rw same_handler_refl (or_true (s.mask h))), tt);
    grows = λ s x q. (Keeps-mark h).grows s x q;
  }

  pub Keeps-fail_when : (c : Ctx) (e : Expr) (h : Handler) → Keeps bt (fail_when c e h)
  unfolding fail_when
  Keeps-fail_when c e h = Keeps-jump h (Stmt.fail_if e c.ins.offset h) (λ m p. p)

  Keeps-count_fallback : Keeps bt count_fallback
  unfolding count_fallback
  Keeps-count_fallback = record { safe = λ s h. h; grows = λ s x h. h }

  pub Keeps-emit_vm_fallback : (c : Ctx) → Keeps bt (emit_vm_fallback c)
  unfolding emit_vm_fallback
  Keeps-emit_vm_fallback c = Keeps-then count_fallback _ Keeps-count_fallback (
      Keeps-jump Handler.vm_fallback (Stmt.jump_handler c.ins.offset Handler.vm_fallback)
        (λ m p. p))

  pub Keeps-emit_forward_declaration :
      (x : Symbol) (d : Forward) → Keeps bt (emit_forward_declaration x d)
  unfolding emit_forward_declaration
  Keeps-emit_forward_declaration x d = record {
    safe = λ s h. elim (Bool-cases (has_symbol x s.emitted_symbols)) [
      | inl e ↦ rw e h
      | inr e ↦ rw e h
    ];
    grows = λ s y h. elim (Bool-cases (has_symbol x s.emitted_symbols)) [
      | inl e ↦ rw e h
      | inr e ↦ rw e h
    ];
  }

  pub Keeps-map_extern : (x : Symbol) (kind : ExternKind) → Keeps bt (map_extern x kind)
  unfolding map_extern
  Keeps-map_extern x kind = record { safe = λ s h. h; grows = λ s y h. h }

  pub Keeps-next_string_constant : Keeps bt next_string_constant
  unfolding next_string_constant
  Keeps-next_string_constant = record { safe = λ s h. h; grows = λ s x h. h }

  pub Keeps-next_type_info : Keeps bt next_type_info
  unfolding next_type_info
  Keeps-next_type_info = record { safe = λ s h. h; grows = λ s x h. h }

-- The rules that `search` applies to a chain of emitting functions.
pub ruleset keeps = (
  Keeps-bind, Keeps-then, Keeps-pure, Keeps-if, Keeps-when, Keeps-mark, Keeps-fail_when,
  Keeps-emit_vm_fallback, Keeps-emit_forward_declaration, Keeps-map_extern,
  Keeps-next_string_constant, Keeps-next_type_info,
)
