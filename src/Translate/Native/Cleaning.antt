-- ===== src/Translate/Native/Cleaning.antt =====
-- What the gathered arguments of a native call (src/angelsea/detail/bytecode2c.cpp) take from the
-- stack and from elided pushes, and where the cleaning of arguments finds them.
use angelsea.Common.{
  ℕ, ◌+◌, ◌*◌, ◌≤◌, ◌<◌, ◌≡◌, refl, ap, ◌∙◌, Bool, true, false, ◌&&◌, not, none, some, length,
  lookup, All, arith, if◌then◌else◌, Bool-cases, inl, inr, get_elem?, sym,
}
use angelsea.Translate.CCode.{Expr, CType}
use angelsea.Translate.Engine.{Abi, ScriptFunction}
use angelsea.Translate.State.{Ctx, FnState}
use angelsea.Translate.Calls.{SystemCall}
use angelsea.Translate.Native.Types.{is_complex_passed_by_value}
use angelsea.Translate.Native.Gather.{Gathered, elided_pushes}
use angelsea.Translate.Native.Hidden.{is_none, gather}
use angelsea.Translate.Native.Call.{clean_base_offset}
use angelsea.Translate.Native.Moves.{taken, pushes_size, stack_size}
use angelsea.Translate.Native.Layout.{params_size, offset_of}
use angelsea.Translate.Native.Arguments.{gathered-Arranged}
use angelsea.Translate.Native.Before.{object_size, return_size, hidden_args, pops_before}
use angelsea.Translate.Native.Popped.{drop, ReadAt}

-- Where no parameter has size 0 on the stack: the arguments of a native call that are taken from the
-- stack are the object, if it is there, the pointer to the result, if there is one, and the
-- parameters, by their sizes; and of the pushes that were elided before the call, those that
-- arguments were taken from and those that go back to the stack make up the size of all of them.
pub gather-balanced :
    (c : Ctx) (call : SystemCall) (fn : ScriptFunction) (abi : Abi) (t : CType) (s : FnState)
    (g : Gathered)
    → All (λ p. 1 ≤ stack_size p) fn.parameter_types
    → (gather c call fn abi t s).0 ≡ some g
    → (taken g.stack ≡ object_size call fn + return_size fn + params_size fn.parameter_types)
      × (g.stack.injected_dwords + g.stack.injected_pwords * 2 + pushes_size c g.pending
          ≡ pushes_size c (elided_pushes (lookup c.ins.offset c.found.fn_to_stack_push)))
gather-balanced c call fn abi t s g ones e =
    let a = gathered-Arranged c call fn abi t s g ones e in (a.taken_is, a.elided_is)

-- The pointer to a complex result is on the stack.
abbrev pub ReturnsOnStack : ScriptFunction → Type 0
ReturnsOnStack fn =
    is_complex_passed_by_value fn.return_data_type ≡ true → fn.returns_on_stack ≡ true

return_size-cases :
    (fn : ScriptFunction)
    → ReturnsOnStack fn
    → return_size fn ≡ (if fn.returns_on_stack then 2 else 0)
return_size-cases fn h = elim (Bool-cases (is_complex_passed_by_value fn.return_data_type)) [
  | inl complex ↦ rw (complex, h complex) refl
  | inr simple ↦ rw simple refl
]

size_if : Bool → ℕ
size_if b = if b then 2 else 0

-- The base offset of the cleaning is what stands above the parameters.
clean_base_offset-stack :
    (call : SystemCall) (fn : ScriptFunction)
    → call.object_pointer_override ≡ none
    → fn.has_auxiliary ≡ false
    → ReturnsOnStack fn
    → clean_base_offset fn ≡ object_size call fn + return_size fn
unfolding clean_base_offset size_if
clean_base_offset-stack call fn no_override no_aux on_stack =
    let object : object_size call fn ≡ size_if (fn.at_least_thiscall && true) =
      ap (λ o. size_if (fn.at_least_thiscall && is_none o)) no_override in
    let base : size_if (fn.at_least_thiscall && not fn.has_auxiliary)
        ≡ size_if (fn.at_least_thiscall && true) =
      ap (λ b. size_if (fn.at_least_thiscall && not b)) no_aux in
    omega (arith, object, base, return_size-cases fn on_stack)

-- It counts an object that is given and not on the stack.
clean_base_offset-given :
    (call : SystemCall) (fn : ScriptFunction) (object : Expr)
    → call.object_pointer_override ≡ some object
    → fn.at_least_thiscall ≡ true
    → fn.has_auxiliary ≡ false
    → ReturnsOnStack fn
    → clean_base_offset fn ≡ object_size call fn + return_size fn + 2
unfolding clean_base_offset size_if
clean_base_offset-given call fn object override method no_aux on_stack =
    let given : object_size call fn ≡ 0 =
      ap (λ b. size_if (b && is_none call.object_pointer_override)) method
      ∙ ap (λ o. size_if (is_none o)) override in
    let base : size_if (fn.at_least_thiscall && not fn.has_auxiliary) ≡ 2 =
      ap (λ b. size_if (b && not fn.has_auxiliary)) method ∙ ap (λ b. size_if (not b)) no_aux in
    omega (arith, given, base, return_size-cases fn on_stack)

-- Where the object is taken from the stack, no parameter has size 0 there, the function has no
-- auxiliary object and a complex result has a pointer on the stack: under the parameter's offset the
-- cleaning of arguments finds, whatever the ABI, the index of an argument, and the argument at this
-- index is the parameter's: it reads the elided push that follows those used for the object, the
-- pointer to the result and the parameters before it, or, where no push is left, the stack behind
-- these, less what the elided pushes stood for. A value is read itself, or through a pointer there.
pub gather-finds :
    (c : Ctx) (call : SystemCall) (fn : ScriptFunction) (abi : Abi) (t : CType) (s : FnState)
    (g : Gathered) (i : ℕ)
    → call.object_pointer_override ≡ none
    → fn.has_auxiliary ≡ false
    → ReturnsOnStack fn
    → All (λ p. 1 ≤ stack_size p) fn.parameter_types
    → (gather c call fn abi t s).0 ≡ some g
    → i < length fn.parameter_types
    → (lookup (offset_of i fn.parameter_types + clean_base_offset fn) g.stack_offset_to_arg_id
        ≡ some (hidden_args fn + i))
      × ReadAt c
          (offset_of i fn.parameter_types + clean_base_offset fn)
          (drop
            (pops_before call fn + i)
            (elided_pushes (lookup c.ins.offset c.found.fn_to_stack_push)))
          (pushes_size c (elided_pushes (lookup c.ins.offset c.found.fn_to_stack_push)))
          (get_elem? g.args (hidden_args fn + i))
gather-finds c call fn abi t s g i no_override no_aux on_stack ones e lt =
    let a = gathered-Arranged c call fn abi t s g ones e in
    let off : offset_of i fn.parameter_types + clean_base_offset fn
        ≡ object_size call fn + return_size fn + offset_of i fn.parameter_types =
      omega (arith, clean_base_offset-stack call fn no_override no_aux on_stack) in
    let r = a.reads_at i lt in
    (
      ap (λ o. lookup o g.stack_offset_to_arg_id) off ∙ a.finds i lt,
      record {
        arg = r.arg;
        stack = r.stack;
        is_there = r.is_there;
        reads = r.reads;
        taken_is = r.taken_is ∙ sym off;
        elided_is = r.elided_is;
      },
    )

-- Where the object is given, as for a constructor, and the convention has an object: no argument is
-- found under the offset of the first parameter, if the parameters take at most two dwords, since
-- the base offset counts an object that is not on the stack.
pub gather-misses :
    (c : Ctx) (call : SystemCall) (fn : ScriptFunction) (abi : Abi) (t : CType) (s : FnState)
    (g : Gathered) (object : Expr)
    → call.object_pointer_override ≡ some object
    → fn.at_least_thiscall ≡ true
    → fn.has_auxiliary ≡ false
    → ReturnsOnStack fn
    → All (λ p. 1 ≤ stack_size p) fn.parameter_types
    → params_size fn.parameter_types ≤ 2
    → (gather c call fn abi t s).0 ≡ some g
    → lookup (0 + clean_base_offset fn) g.stack_offset_to_arg_id ≡ none
gather-misses c call fn abi t s g object override method no_aux on_stack ones small e =
    let a = gathered-Arranged c call fn abi t s g ones e in
    let base = clean_base_offset-given call fn object override method no_aux on_stack in
    a.nothing_above (0 + clean_base_offset fn) (omega (arith, base, small))
