-- ===== src/Translate/Elision/Pass.antt =====
-- discover_function_call_pushes of src/angelsea/detail/bytecode2c.cpp: which pushes are elided, and
-- which call takes them.
use mathlib.Core.List.{append_assoc, map-append}
use mathlib.Core.Path.{subst}
use angelsea.Common.{
  All-right, All-map, ℕ, true, false, ◌≡◌, refl, sym, ap, ◌∙◌, none, some, List, [], ◌∷◌, ◌++◌, map,
  inl, inr, lookup, All, All-append, Option-cases, if-intro, emplace, lookup-emplace,
  lookup-emplace_kept, lookup-emplace_cases,
}
use angelsea.Bytecode.VarType.{VarType}
use angelsea.Bytecode.Ins.{Ins, Operand, is_system_call, operand_type, push_value}
use angelsea.Translate.Engine.{JitConfig}
use angelsea.Translate.Discover.{
  Pushes, push_offset, emplace_all, ends_pushes, push_step, discover_function_call_pushes,
}
use angelsea.Translate.Elision.Maps.{
  emplace-new, Distinct-right, pushed_type, push_entry, Distinct, Fresh, Typed, emplace_all-kept,
  emplace_all-cases, emplace_all-Fresh, emplace_all-Typed,
}
use angelsea.Translate.Elision.Handover.{
  offsets-push_entry, ends_pushes-Inside, offsets, Elidable, Handover, Matched,
}

module _ (config : JitConfig) (targets : List ℕ) (whole : List Ins) where
  -- The state of the pass in front of `rest`.
  record Passing (rest : List Ins) (p : Pushes) : Type 0 where
    before : List Ins
    run : List Ins
    splits : before ++ (run ++ rest) ≡ whole
    current_is : p.current ≡ map push_entry run
    are_pushes : All (Elidable config targets) run
    distinct : Distinct (run ++ rest)
    fresh : All (Fresh p.stack_push_infos) (run ++ rest)
    new_calls : All (λ y. lookup y.offset p.fn_to_stack_push ≡ none) rest
    matched : Matched config targets whole p.stack_push_infos p.fn_to_stack_push

  passed :
      (x : Ins) (before run rest : List Ins)
      → before ++ (run ++ (x ∷ rest)) ≡ whole
      → (before ++ (run ++ (x ∷ []))) ++ rest ≡ whole
  passed x before run rest e =
      append_assoc before (run ++ (x ∷ [])) rest
      ∙ ap (λ l. before ++ l) (append_assoc run (x ∷ []) rest)
      ∙ e

  clear-Passing :
      (x : Ins) (rest : List Ins) (p : Pushes)
      → Passing (x ∷ rest) p
      → Passing rest (record p { current = [] })
  clear-Passing x rest p s = record {
    before = s.before ++ (s.run ++ (x ∷ []));
    run = [];
    splits = passed x s.before s.run rest s.splits;
    current_is = refl;
    are_pushes = tt;
    distinct = (Distinct-right s.run (x ∷ rest) s.distinct).1;
    fresh = (All-right (Fresh p.stack_push_infos) s.run (x ∷ rest) s.fresh).1;
    new_calls = s.new_calls.1;
    matched = s.matched;
  }

  push-Passing :
      (x : Ins) (rest : List Ins) (p : Pushes) (operand : Operand)
      → ends_pushes config targets x ≡ false
      → is_system_call x.opcode ≡ false
      → push_value x.opcode x ≡ some operand
      → Passing (x ∷ rest) p
      → Passing rest (record p { current = p.current ++ ((x.offset, operand_type operand) ∷ []) })
  push-Passing x rest p operand e c v s =
      let assoc = sym (append_assoc s.run (x ∷ []) rest) in
      let typed : pushed_type x ≡ operand_type operand = rw (pushed_type, v) refl in
      record {
        before = s.before;
        run = s.run ++ (x ∷ []);
        splits = ap (λ l. s.before ++ l) (sym assoc) ∙ s.splits;
        current_is =
            ap (λ l. l ++ ((x.offset, operand_type operand) ∷ [])) s.current_is
            ∙ ap (λ t. map push_entry s.run ++ ((x.offset, t) ∷ [])) (sym typed)
            ∙ sym (map-append push_entry s.run (x ∷ []));
        are_pushes =
            All-append (Elidable config targets) s.run (x ∷ []) s.are_pushes
              ((ends_pushes-Inside config targets x e, c, operand, v), tt);
        distinct = subst Distinct assoc s.distinct;
        fresh = subst (All (Fresh p.stack_push_infos)) assoc s.fresh;
        new_calls = s.new_calls.1;
        matched = s.matched;
      }

  -- A call takes the run in front of it.
  take-Matched :
      (x : Ins) (rest : List Ins) (p : Pushes) (s : Passing (x ∷ rest) p)
      → ends_pushes config targets x ≡ false
      → is_system_call x.opcode ≡ true
      → Matched config targets whole
          (emplace_all (map push_entry s.run) p.stack_push_infos)
          (emplace x.offset (offsets s.run) p.fn_to_stack_push)
  take-Matched x rest p s e c =
      let infos = emplace_all (map push_entry s.run) p.stack_push_infos in
      let calls = emplace x.offset (offsets s.run) p.fn_to_stack_push in
      let new : Handover config targets whole infos calls = record {
        before = s.before;
        run = s.run;
        call = x;
        after = rest;
        splits = s.splits;
        are_pushes = s.are_pushes;
        call_is_inside = ends_pushes-Inside config targets x e;
        is_call = c;
        takes = lookup-emplace x.offset (offsets s.run) p.fn_to_stack_push s.new_calls.0;
        typed = emplace_all-Typed s.run (x ∷ rest) p.stack_push_infos s.distinct s.fresh;
      } in
      let old : Handover config targets whole p.stack_push_infos p.fn_to_stack_push
          → Handover config targets whole infos calls =
        λ h. record {
          before = h.before;
          run = h.run;
          call = h.call;
          after = h.after;
          splits = h.splits;
          are_pushes = h.are_pushes;
          call_is_inside = h.call_is_inside;
          is_call = h.is_call;
          takes =
              lookup-emplace_kept h.call.offset x.offset (offsets h.run) (offsets s.run)
                p.fn_to_stack_push h.takes;
          typed =
              All-map (Typed p.stack_push_infos) (Typed infos) h.run
                (λ y.
                  emplace_all-kept y.offset (pushed_type y) (map push_entry s.run)
                    p.stack_push_infos)
                h.typed;
        } in
      record {
        taken = λ k t q. elim (emplace_all-cases k t (map push_entry s.run) p.stack_push_infos q) [
          | inl before ↦ let (h, m) = s.matched.taken k t before in (old h, m)
          | inr m ↦ (new, m)
        ];
        handed = λ j ks q.
            elim (lookup-emplace_cases j x.offset ks (offsets s.run) p.fn_to_stack_push q) [
              | inl before ↦ let (h, m) = s.matched.handed j ks before in (old h, m)
              | inr (i, _) ↦ (new, sym i)
            ];
      }

  call-Passing :
      (x : Ins) (rest : List Ins) (p : Pushes)
      → ends_pushes config targets x ≡ false
      → is_system_call x.opcode ≡ true
      → Passing (x ∷ rest) p
      → Passing rest (record {
        current = [];
        stack_push_infos = emplace_all p.current p.stack_push_infos;
        fn_to_stack_push = emplace x.offset (map push_offset p.current) p.fn_to_stack_push;
      })
  call-Passing x rest p e c s =
      let P : List (ℕ × VarType) → List ℕ → Type 0 = λ current ks. Passing rest (record {
        current = [];
        stack_push_infos = emplace_all current p.stack_push_infos;
        fn_to_stack_push = emplace x.offset ks p.fn_to_stack_push;
      }) in
      let here : P (map push_entry s.run) (offsets s.run) = record {
        before = s.before ++ (s.run ++ (x ∷ []));
        run = [];
        splits = passed x s.before s.run rest s.splits;
        current_is = refl;
        are_pushes = tt;
        distinct = (Distinct-right s.run (x ∷ rest) s.distinct).1;
        fresh = (emplace_all-Fresh s.run (x ∷ rest) p.stack_push_infos s.distinct s.fresh).1;
        new_calls =
            emplace-new x (offsets s.run) rest p.fn_to_stack_push
              (Distinct-right s.run (x ∷ rest) s.distinct).0 s.new_calls.1;
        matched = take-Matched x rest p s e c;
      } in
      subst (λ current. P current (map push_offset current)) (sym s.current_is)
        (subst (P (map push_entry s.run)) (sym (offsets-push_entry s.run)) here)

  push_step-Passing :
      (x : Ins) (rest : List Ins) (p : Pushes)
      → Passing (x ∷ rest) p
      → Passing rest (push_step config targets x p)
  unfolding push_step
  push_step-Passing x rest p s =
      if-intro (Passing rest) (ends_pushes config targets x) _ _ (λ _. clear-Passing x rest p s)
        (λ e.
          if-intro (Passing rest) (is_system_call x.opcode) _ _ (λ c. call-Passing x rest p e c s)
            (λ c. elim (Option-cases (push_value x.opcode x)) [
              | inl v ↦ rw v (clear-Passing x rest p s)
              | inr (operand, v) ↦ rw v (push-Passing x rest p operand e c v s)
            ]))

  discover_function_call_pushes-Passing :
      (l : List Ins) (p : Pushes)
      → Passing l p
      → let q = discover_function_call_pushes config targets l p in
        Matched config targets whole q.stack_push_infos q.fn_to_stack_push
  unfolding discover_function_call_pushes
  discover_function_call_pushes-Passing [] p s = s.matched
  discover_function_call_pushes-Passing (x ∷ l) p s =
      discover_function_call_pushes-Passing l (push_step config targets x p)
        (push_step-Passing x l p s)

-- The pass over bytecode whose offsets are distinct, for any branch targets: each push that has a
-- temporary is one of a run of pushes right in front of a system call that takes all of them in
-- their order, and each call that takes pushes stands right behind such a run, whose pushes all have
-- temporaries of their types. In such a run and at the call there is no branch target, nothing
-- blacklisted and no instruction behind which the code falls back.
pub discover_function_call_pushes-Matched :
    (config : JitConfig) (targets : List ℕ) (bytecode : List Ins)
    → Distinct bytecode
    → let p =
        discover_function_call_pushes config targets bytecode
          (record { current = []; stack_push_infos = []; fn_to_stack_push = [] }) in
      Matched config targets bytecode p.stack_push_infos p.fn_to_stack_push
discover_function_call_pushes-Matched config targets bytecode d =
    discover_function_call_pushes-Passing config targets bytecode bytecode _ (record {
      before = [];
      run = [];
      splits = refl;
      current_is = refl;
      are_pushes = tt;
      distinct = d;
      fresh = nothing _ bytecode;
      new_calls = nothing _ bytecode;
      matched = record { taken = λ k t e. absurd (cc e); handed = λ j ks e. absurd (cc e) };
    })
  where
    nothing : (A : Type 0) (l : List Ins) → All (λ y. lookup {V = A} y.offset [] ≡ none) l
    nothing A [] = tt
    nothing A (x ∷ l) = (refl, nothing A l)
