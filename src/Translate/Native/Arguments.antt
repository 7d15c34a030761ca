-- ===== src/Translate/Native/Arguments.antt =====
-- The gathered arguments of a native call (src/angelsea/detail/bytecode2c.cpp) as a whole.
use mathlib.Core.Path.{subst}
use angelsea.Common.{
  get_elem?, ℕ, ◌+◌, ◌≤◌, ◌<◌, ◌≡◌, ap, ◌∙◌, ◌&&◌, Option, none, some, length, lookup, All, arith,
  ltb, if-intro, sym,
}
use angelsea.Translate.CCode.{CType}
use angelsea.Translate.Engine.{Abi, ScriptFunction}
use angelsea.Translate.State.{Ctx, FnState}
use angelsea.Translate.Calls.{SystemCall}
use angelsea.Translate.Native.Types.{is_complex_passed_by_value}
use angelsea.Translate.Native.Gather.{Gathered, gathered_nothing, elided_pushes, add_parameters}
use angelsea.Translate.Native.Hidden.{
  pop_object, push_pointer_if, obj, is_thiscall_objfirst, is_cdecl_objfirst, is_cdecl_objlast,
  is_macos_aarch64, finish_arguments, finish_gathering, gather_parameters, popped, gather,
}
use angelsea.Translate.Native.Returns.{
  Returns-both, ForSome-both, Returns, Returns-bind, Returns-pure, ForSome,
}
use angelsea.Translate.Native.Moves.{taken, elided, pushes_size, stack_size, Moves, Moves-trans}
use angelsea.Translate.Native.Layout.{params_size, offset_of, Layout, add_parameters-Layout}
use angelsea.Translate.Native.Before.{
  popped-pending, push_hidden-pending, push_pointer_if-pending, push_pointer_if-keeps, object_size,
  return_size, hidden_args, count, pop_object-Moves, pop_return_pointer-Moves,
  push_pointer_if-Moves, push_hidden-Moves, Moves-cast, pops_before,
}
use angelsea.Translate.Native.Popped.{drop, drop-drop, Reads, ReadAt}
use angelsea.Translate.Native.InOrder.{InOrder, add_parameters-InOrder}

module _ (c : Ctx) where
  -- What the gathering of arguments arrives at.
  pub record Arranged (call : SystemCall) (fn : ScriptFunction) (g : Gathered) : Type 0 where
    pub taken_is :
        taken g.stack ≡ object_size call fn + return_size fn + params_size fn.parameter_types
    pub elided_is :
        elided c g.stack g.pending
        ≡ pushes_size c (elided_pushes (lookup c.ins.offset c.found.fn_to_stack_push))
    pub finds :
        (i : ℕ)
        → i < length fn.parameter_types
        → lookup
            (object_size call fn + return_size fn + offset_of i fn.parameter_types)
            g.stack_offset_to_arg_id
          ≡ some (hidden_args fn + i)
    pub reads_at :
        (i : ℕ)
        → i < length fn.parameter_types
        → ReadAt c
            (object_size call fn + return_size fn + offset_of i fn.parameter_types)
            (drop
              (pops_before call fn + i)
              (elided_pushes (lookup c.ins.offset c.found.fn_to_stack_push)))
            (pushes_size c (elided_pushes (lookup c.ins.offset c.found.fn_to_stack_push)))
            (get_elem? g.args (hidden_args fn + i))
    pub nothing_above :
        (x : ℕ)
        → object_size call fn + return_size fn + params_size fn.parameter_types ≤ x
        → lookup x g.stack_offset_to_arg_id ≡ none

  module _ (call : SystemCall) (fn : ScriptFunction) (t : CType)
      (ones : All (λ p. 1 ≤ stack_size p) fn.parameter_types) where
    -- The arguments up to the parameters are there.
    abbrev Ready : Gathered → Type 0
    Ready h =
        Moves c (object_size call fn + return_size fn) (hidden_args fn) (gathered_nothing c) h
        × (h.pending
            ≡ drop (pops_before call fn)
                (elided_pushes (lookup c.ins.offset c.found.fn_to_stack_push)))

    -- The parameters are there.
    abbrev Added : Gathered → Gathered → Type 0
    Added h g = Layout c fn.parameter_types h g × InOrder c fn.parameter_types h g

    popped-Moves :
        Moves c (object_size call fn + return_size fn) 0 (gathered_nothing c) (popped c call fn t)
    popped-Moves =
        let g = gathered_nothing c in
        let h = (pop_object c call fn g).1 in
        Moves-trans c (object_size call fn) 0 (return_size fn) 0 g h _
          (pop_object-Moves c call fn g) (pop_return_pointer-Moves c fn t h)

    Layout-Arranged :
        (h g g' : Gathered)
        → Ready h
        → Added h g
        → Moves c 0 (count (is_cdecl_objlast fn.call_conv)) g g'
        → ((i : ℕ) → i < length g.args → get_elem? g'.args i ≡ get_elem? g.args i)
        → Arranged call fn g'
    Layout-Arranged h g g' (m, left) (l, order) last kept = record {
      taken_is = omega (arith, m.taken_moves, l.taken_is, last.taken_moves);
      elided_is = last.elided_kept ∙ l.elided_is ∙ m.elided_kept ∙ omega arith;
      finds = λ i lt.
          let off : object_size call fn + return_size fn + offset_of i fn.parameter_types
              ≡ h.stack.real_stack_offset + offset_of i fn.parameter_types =
            omega (arith, m.offset_moves) in
          let id : length h.args + i ≡ hidden_args fn + i = omega (arith, m.args_grow) in
          ap (λ o. lookup o g'.stack_offset_to_arg_id) off
          ∙ ap (lookup (h.stack.real_stack_offset + offset_of i fn.parameter_types)) last.ids_kept
          ∙ l.finds i lt
          ∙ ap some id;
      reads_at = λ i lt.
          let r = order.reads_at i lt in
          let id : hidden_args fn + i ≡ length h.args + i = omega (arith, m.args_grow) in
          let is_old : length h.args + i < length g.args = omega (arith, l.args_are, lt) in
          let rest = ap (drop i) left ∙ drop-drop i (pops_before call fn) _ in
          record {
            arg = r.arg;
            stack = r.stack;
            is_there = ap (get_elem? g'.args) id ∙ kept (length h.args + i) is_old ∙ r.is_there;
            reads = subst (λ p. Reads r.stack p r.arg) rest r.reads;
            taken_is = omega (arith, r.taken_is, m.taken_moves);
            elided_is =
                ap (elided c r.stack) (sym rest) ∙ r.elided_is ∙ m.elided_kept ∙ omega arith;
          };
      nothing_above = λ x le.
          ap (lookup x) last.ids_kept
          ∙ l.fresh_is x (omega (arith, l.offset_is, m.offset_moves, le));
    }

    finish_gathering-Arranged :
        (abi : Abi) (h : Gathered) (o : Option Gathered)
        → Ready h
        → ForSome (Added h) o
        → ForSome (Arranged call fn) (finish_gathering fn abi o)
    unfolding finish_gathering finish_arguments
    finish_gathering-Arranged abi h none m l = tt
    finish_gathering-Arranged abi h (some g) m l =
        let g' = push_pointer_if (is_cdecl_objlast fn.call_conv) obj g in
        if-intro (ForSome (Arranged call fn)) (is_macos_aarch64 abi && ltb 8 g'.max_regs_used) none
          (some g') (λ _. tt)
          (λ _.
            Layout-Arranged h g g' m l
              (push_pointer_if-Moves c (is_cdecl_objlast fn.call_conv) obj g)
              (push_pointer_if-keeps (is_cdecl_objlast fn.call_conv) obj g))

    gather_parameters-Arranged :
        (abi : Abi) (o : Option Gathered)
        → ForSome
            (λ g.
              Moves c 0
                (count (is_complex_passed_by_value fn.return_data_type)
                  + count (is_thiscall_objfirst fn.call_conv))
                (popped c call fn t)
                g
              × (g.pending ≡ (popped c call fn t).pending))
            o
        → Returns (ForSome (Arranged call fn)) (gather_parameters c fn abi o)
    unfolding gather_parameters
    gather_parameters-Arranged abi none m = Returns-pure (ForSome (Arranged call fn)) none tt
    gather_parameters-Arranged abi (some g) (m, same) =
        let h = push_pointer_if (is_cdecl_objfirst fn.call_conv) obj g in
        let k =
          count (is_complex_passed_by_value fn.return_data_type)
          + count (is_thiscall_objfirst fn.call_conv) in
        let first =
          Moves-trans c (object_size call fn + return_size fn) 0 0 k (gathered_nothing c)
            (popped c call fn t) g popped-Moves m in
        let all : Moves c (object_size call fn + return_size fn) (hidden_args fn)
            (gathered_nothing c) h =
          Moves-cast c _ _ _ _ (gathered_nothing c) h (omega arith) (omega arith) (
            Moves-trans c _ _ 0 (count (is_cdecl_objfirst fn.call_conv)) (gathered_nothing c) g h
              first (push_pointer_if-Moves c (is_cdecl_objfirst fn.call_conv) obj g)) in
        let left =
          push_pointer_if-pending (is_cdecl_objfirst fn.call_conv) obj g
          ∙ same
          ∙ popped-pending c call fn t in
        Returns-bind (ForSome (Added h)) (ForSome (Arranged call fn))
          (add_parameters c fn.parameter_types h) _
          (Returns-both (Layout c fn.parameter_types h) (InOrder c fn.parameter_types h)
            (add_parameters c fn.parameter_types h)
            (add_parameters-Layout c fn.parameter_types h ones (λ x le. ap (lookup x) all.ids_kept))
            (add_parameters-InOrder c fn.parameter_types h))
          (λ r l.
            Returns-pure (ForSome (Arranged call fn)) (finish_gathering fn abi r)
              (finish_gathering-Arranged abi h r (all, left) l))

    gather-Arranged : (abi : Abi) → Returns (ForSome (Arranged call fn)) (gather c call fn abi t)
    unfolding gather
    gather-Arranged abi = gather_parameters-Arranged abi _ (
        ForSome-both _ _ _
          (push_hidden-Moves c abi (is_complex_passed_by_value fn.return_data_type)
            (is_thiscall_objfirst fn.call_conv) (popped c call fn t))
          (push_hidden-pending abi (is_complex_passed_by_value fn.return_data_type)
            (is_thiscall_objfirst fn.call_conv) (popped c call fn t)))

  -- What is gathered where nothing is refused.
  pub gathered-Arranged :
      (call : SystemCall) (fn : ScriptFunction) (abi : Abi) (t : CType) (s : FnState) (g : Gathered)
      → All (λ p. 1 ≤ stack_size p) fn.parameter_types
      → (gather c call fn abi t s).0 ≡ some g
      → Arranged call fn g
  unfolding Returns
  gathered-Arranged call fn abi t s g ones e =
      subst (ForSome (Arranged call fn)) e (gather-Arranged call fn t ones abi s)
