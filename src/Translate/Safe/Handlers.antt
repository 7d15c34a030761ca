-- ===== src/Translate/Safe/Handlers.antt =====
-- The error handlers at the end of a translated function: emit_error_handlers of
-- src/angelsea/detail/bytecode2c.cpp.
use angelsea.Common.{
  Bool, true, false, ◌≡◌, refl, sym, ap, ◌∙◌, none, some, some-inj, List, [], ◌∷◌, ◌++◌, ◌||◌, All,
  All-append, All-map, if-intro, or_left, or_right, or-cases, Bool-cases, inl, inr,
}
use angelsea.Translate.CCode.{Handler, HandlerBlock}
use angelsea.Translate.State.{same_handler}
use angelsea.Translate.Function.{emit_exception_handler, emit_vm_handler, emit_error_handlers}
use angelsea.Translate.Safe.Function.{has_handler, HandlerClosed}

abbrev Emitted : Type 0
Emitted = List HandlerBlock × (Handler → Bool)

same_handler_refl : (h : Handler) → same_handler h h ≡ true
same_handler_refl Handler.vm_fallback = refl
same_handler_refl Handler.err_null = refl
same_handler_refl Handler.err_divide_by_zero = refl
same_handler_refl Handler.err_divide_overflow = refl

has_handler-left :
    (l r : List HandlerBlock) (h : Handler) → has_handler l h ≡ true → has_handler (l ++ r) h ≡ true
has_handler-left [] r h e = absurd (cc e)
has_handler-left (b ∷ l) r h e = elim (or-cases (same_handler b.label h) (has_handler l h) e) [
  | inl q ↦ or_left (same_handler b.label h) (has_handler (l ++ r) h) q
  | inr q ↦ or_right (same_handler b.label h) (has_handler (l ++ r) h) (has_handler-left l r h q)
]

has_handler-last :
    (l : List HandlerBlock) (b : HandlerBlock) → has_handler (l ++ (b ∷ [])) b.label ≡ true
has_handler-last [] b = or_left (same_handler b.label b.label) false (same_handler_refl b.label)
has_handler-last (d ∷ l) b = or_right (same_handler d.label b.label) _ (has_handler-last l b)

module _ (h : Handler) (r : Emitted) where
  -- The handler's own step gives the label.
  exception-label : r.1 h ≡ true → has_handler (emit_exception_handler h r).0 h ≡ true
  unfolding emit_exception_handler
  exception-label e =
      rw e (has_handler-last r.0 (record { label = h; goes_to = some Handler.vm_fallback }))

  exception-mask : (k : Handler) → r.1 h ≡ true → (emit_exception_handler k r).1 h ≡ true
  unfolding emit_exception_handler
  exception-mask k e =
      if-intro (λ (q : Emitted). q.1 h ≡ true) (r.1 k) _ _ (λ _. or_left (r.1 h) _ e) (λ _. e)

  exception-keeps :
      (k : Handler) → has_handler r.0 h ≡ true → has_handler (emit_exception_handler k r).0 h ≡ true
  unfolding emit_exception_handler
  exception-keeps k e =
      if-intro (λ (q : Emitted). has_handler q.0 h ≡ true) (r.1 k) _ _
        (λ _. has_handler-left r.0 _ h e) (λ _. e)

  vm-keeps : has_handler r.0 h ≡ true → has_handler (emit_vm_handler r) h ≡ true
  unfolding emit_vm_handler
  vm-keeps e =
      if-intro (λ l. has_handler l h ≡ true) (r.1 Handler.vm_fallback) _ _
        (λ _. has_handler-left r.0 _ h e) (λ _. e)

vm-label :
    (r : Emitted)
    → r.1 Handler.vm_fallback ≡ true
    → has_handler (emit_vm_handler r) Handler.vm_fallback ≡ true
unfolding emit_vm_handler
vm-label r e = rw e (has_handler-last r.0 (record { label = Handler.vm_fallback; goes_to = none }))

-- The handlers so far.
abbrev after_null : (Handler → Bool) → Emitted
after_null mask = emit_exception_handler Handler.err_null ([], mask)

abbrev after_zero : (Handler → Bool) → Emitted
after_zero mask = emit_exception_handler Handler.err_divide_by_zero (after_null mask)

abbrev after_overflow : (Handler → Bool) → Emitted
after_overflow mask = emit_exception_handler Handler.err_divide_overflow (after_zero mask)

-- Every handler in the mask has its label at the end of the function.
pub emit_error_handlers-has_handler :
    (mask : Handler → Bool) (h : Handler)
    → mask h ≡ true
    → has_handler (emit_error_handlers mask) h ≡ true
unfolding emit_error_handlers
emit_error_handlers-has_handler mask Handler.vm_fallback e =
    let h = Handler.vm_fallback in
    vm-label (after_overflow mask) (
      exception-mask h (after_zero mask) Handler.err_divide_overflow (
        exception-mask h (after_null mask) Handler.err_divide_by_zero
          (exception-mask h ([], mask) Handler.err_null e)))
emit_error_handlers-has_handler mask Handler.err_null e =
    let h = Handler.err_null in
    vm-keeps h (after_overflow mask) (
      exception-keeps h (after_zero mask) Handler.err_divide_overflow (
        exception-keeps h (after_null mask) Handler.err_divide_by_zero
          (exception-label h ([], mask) e)))
emit_error_handlers-has_handler mask Handler.err_divide_by_zero e =
    let h = Handler.err_divide_by_zero in
    vm-keeps h (after_overflow mask) (
      exception-keeps h (after_zero mask) Handler.err_divide_overflow
        (exception-label h (after_null mask) (exception-mask h ([], mask) Handler.err_null e)))
emit_error_handlers-has_handler mask Handler.err_divide_overflow e =
    let h = Handler.err_divide_overflow in
    vm-keeps h (after_overflow mask) (
      exception-label h (after_zero mask) (
        exception-mask h (after_null mask) Handler.err_divide_by_zero
          (exception-mask h ([], mask) Handler.err_null e)))

-- A handler goes on to `vm` at most, whose label is still to come.
abbrev GoesToVm : Emitted → HandlerBlock → Type 0
GoesToVm r b =
    (h : Handler)
    → b.goes_to ≡ some h
    → (h ≡ Handler.vm_fallback) × (r.1 Handler.vm_fallback ≡ true)

exception-GoesToVm :
    (k : Handler) (r : Emitted)
    → All (GoesToVm r) r.0
    → let r' = emit_exception_handler k r in All (GoesToVm r') r'.0
unfolding emit_exception_handler
exception-GoesToVm k r a =
    if-intro (λ (q : Emitted). All (GoesToVm q) q.0) (r.1 k) _ _
      (λ _.
        let vm : (r.1 Handler.vm_fallback || true) ≡ true =
          or_right (r.1 Handler.vm_fallback) true refl in
        All-append _ r.0 (_ ∷ []) (All-map (GoesToVm r) _ r.0 (λ b g h e. ((g h e).0, vm)) a)
          ((λ h e. (sym (some-inj _ _ e), vm)), tt))
      (λ _. a)

vm-HandlerClosed :
    (r : Emitted)
    → All (GoesToVm r) r.0
    → All (HandlerClosed (emit_vm_handler r)) (emit_vm_handler r)
unfolding emit_vm_handler
vm-HandlerClosed r a = elim (Bool-cases (r.1 Handler.vm_fallback)) [
  | inl e ↦
      let vm : HandlerBlock = record { label = Handler.vm_fallback; goes_to = none } in
      let label = has_handler-last r.0 vm in
      rw e (
        All-append (HandlerClosed (r.0 ++ (vm ∷ []))) r.0 (vm ∷ [])
          (All-map (GoesToVm r) (HandlerClosed (r.0 ++ (vm ∷ []))) r.0
            (λ b g h q. ap (has_handler (r.0 ++ (vm ∷ []))) (g h q).0 ∙ label) a)
          ((λ h q. absurd (cc q)), tt))
  | inr e ↦
      rw e (All-map (GoesToVm r) (HandlerClosed r.0) r.0 (λ b g h q. absurd (cc (e, (g h q).1))) a)
]

-- Every jump at the end of a handler has its label.
pub emit_error_handlers-HandlerClosed :
    (mask : Handler → Bool)
    → All (HandlerClosed (emit_error_handlers mask)) (emit_error_handlers mask)
unfolding emit_error_handlers
emit_error_handlers-HandlerClosed mask = vm-HandlerClosed (after_overflow mask) (
    exception-GoesToVm Handler.err_divide_overflow (after_zero mask) (
      exception-GoesToVm Handler.err_divide_by_zero (after_null mask)
        (exception-GoesToVm Handler.err_null ([], mask) tt)))
