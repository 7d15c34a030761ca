-- ===== src/Translate/Native/Before.antt =====
-- What the gathering of a native call's arguments takes from the stack before the parameters
-- (src/angelsea/detail/bytecode2c.cpp): the object and the pointer to the result.
use angelsea.Common.{
  get_elem?, length, ◌<◌, ◌∙◌, ℕ, ◌+◌, ◌≡◌, Bool, true, false, ◌&&◌, Option, List, if◌then◌else◌,
  refl, ap, lookup,
}
use angelsea.Translate.CCode.{Piece, CType}
use angelsea.Translate.Engine.{Abi, ScriptFunction}
use angelsea.Translate.State.{Ctx}
use angelsea.Translate.Calls.{SystemCall}
use angelsea.Translate.Native.Types.{is_complex_passed_by_value}
use angelsea.Translate.Native.Gather.{
  push_abi_argument, Gathered, virtual_stack_pop_expr, take_pword, void_ptr, gathered_nothing,
  elided_pushes,
}
use angelsea.Translate.Native.Hidden.{
  popped, is_none, pop_object, pop_return_pointer, push_pointer_if, push_hidden, obj, ret_ptr,
  is_thiscall_objfirst, is_cdecl_objfirst,
}
use angelsea.Translate.Native.Returns.{ForSome}
use angelsea.Translate.Native.Moves.{
  Moves, Moves-refl, Moves-trans, virtual_stack_pop_expr-Moves, push_abi_argument-Moves,
  take_pword-Moves,
}
use angelsea.Translate.Native.Popped.{drop, drop-drop, virtual_stack_pop_expr-pending}
use angelsea.Translate.Native.InOrder.{get_elem?-append}

-- What is on the stack above the parameters: the object and the pointer to the result.
abbrev pub object_size : SystemCall → ScriptFunction → ℕ
object_size call fn = if fn.at_least_thiscall && is_none call.object_pointer_override then 2 else 0

abbrev pub return_size : ScriptFunction → ℕ
return_size fn =
    if is_complex_passed_by_value fn.return_data_type
    then 2
    else if fn.returns_on_stack
    then 2
    else 0

abbrev pub count : Bool → ℕ
count b = if b then 1 else 0

-- How many pops these are.
abbrev pub pops_before : SystemCall → ScriptFunction → ℕ
pops_before call fn =
    count (fn.at_least_thiscall && is_none call.object_pointer_override)
    + (if is_complex_passed_by_value fn.return_data_type then 1 else count fn.returns_on_stack)

-- The arguments before the parameters: the pointer to the result and the object.
abbrev pub hidden_args : ScriptFunction → ℕ
hidden_args fn =
    count (is_complex_passed_by_value fn.return_data_type)
    + count (is_thiscall_objfirst fn.call_conv)
    + count (is_cdecl_objfirst fn.call_conv)

-- A property of what a test chooses, with an index that it chooses too.
by_test :
    {A : Type 0} (P : ℕ → A → Type 0) (n m : ℕ) (b : Bool) (x y : A)
    → P n x
    → P m y
    → P (if b then n else m) (if b then x else y)
by_test P n m true x y h k = h
by_test P n m false x y h k = k

module _ (c : Ctx) where
  pub pop_object-Moves :
      (call : SystemCall) (fn : ScriptFunction) (g : Gathered)
      → Moves c (object_size call fn) 0 g (pop_object c call fn g).1
  unfolding pop_object
  pop_object-Moves call fn g =
      let h = (virtual_stack_pop_expr c void_ptr g).1 in
      by_test (λ n (r : List Piece × Gathered). Moves c n 0 g r.1) 2 0
        (fn.at_least_thiscall && is_none call.object_pointer_override) _ _
        (Moves-trans c 0 0 2 0 g h (take_pword h) (virtual_stack_pop_expr-Moves c void_ptr g)
          (take_pword-Moves c h))
        (Moves-refl c g)

  pub pop_return_pointer-Moves :
      (fn : ScriptFunction) (t : CType) (g : Gathered)
      → Moves c (return_size fn) 0 g (pop_return_pointer c fn t g).1
  unfolding pop_return_pointer
  pop_return_pointer-Moves fn t g =
      let h = (virtual_stack_pop_expr c void_ptr g).1 in
      let m = virtual_stack_pop_expr-Moves c void_ptr g in
      let pointer : Moves c 2 0 g (take_pword h) =
        Moves-trans c 0 0 2 0 g h (take_pword h) m (take_pword-Moves c h) in
      let P : ℕ → Option (List Piece) × Gathered → Type 0 = λ n r. Moves c n 0 g r.1 in
      by_test P 2 (if fn.returns_on_stack then 2 else 0)
        (is_complex_passed_by_value fn.return_data_type) _ _
        (record {
          taken_moves = pointer.taken_moves;
          offset_moves = pointer.offset_moves;
          elided_kept = pointer.elided_kept;
          args_grow = pointer.args_grow;
          ids_kept = pointer.ids_kept;
        })
        (by_test P 2 0 fn.returns_on_stack _ _ pointer (Moves-refl c g))

  pub push_pointer_if-Moves :
      (b : Bool) (e : List Piece) (g : Gathered) → Moves c 0 (count b) g (push_pointer_if b e g)
  unfolding push_pointer_if
  push_pointer_if-Moves true e g = push_abi_argument-Moves c void_ptr e g
  push_pointer_if-Moves false e g = Moves-refl c g

  pub both-Moves :
      (a b : Bool) (d e : List Piece) (g : Gathered)
      → Moves c 0 (count a + count b) g (push_pointer_if b e (push_pointer_if a d g))
  both-Moves a b d e g =
      let h = push_pointer_if a d g in
      Moves-trans c 0 (count a) 0 (count b) g h _ (push_pointer_if-Moves a d g)
        (push_pointer_if-Moves b e h)

  pub push_hidden-Moves :
      (abi : Abi) (complex method : Bool) (g : Gathered)
      → ForSome (Moves c 0 (count complex + count method) g) (push_hidden abi complex method g)
  unfolding push_hidden
  push_hidden-Moves Abi.linux_gcc_x86_64 complex method g = both-Moves complex method ret_ptr obj g
  push_hidden-Moves Abi.windows_mingw_x86_64 complex method g =
      both-Moves complex method ret_ptr obj g
  push_hidden-Moves Abi.windows_msvc_x86_64 true true g = both-Moves true true obj ret_ptr g
  push_hidden-Moves Abi.windows_msvc_x86_64 true false g = both-Moves false true obj ret_ptr g
  push_hidden-Moves Abi.windows_msvc_x86_64 false true g = both-Moves true false obj ret_ptr g
  push_hidden-Moves Abi.windows_msvc_x86_64 false false g = both-Moves false false obj ret_ptr g
  push_hidden-Moves _ true method g = tt
  push_hidden-Moves _ false true g = push_pointer_if-Moves true obj g
  push_hidden-Moves _ false false g = push_pointer_if-Moves false obj g

  pub Moves-cast :
      (n n' k k' : ℕ) (g h : Gathered) → n ≡ n' → k ≡ k' → Moves c n k g h → Moves c n' k' g h
  Moves-cast n n' k k' g h p q m = rw (← p, ← q) m

  pub popped-pending :
      (call : SystemCall) (fn : ScriptFunction) (t : CType)
      → (popped c call fn t).pending
        ≡ drop (pops_before call fn) (elided_pushes (lookup c.ins.offset c.found.fn_to_stack_push))
  unfolding pop_object pop_return_pointer
  popped-pending call fn t =
      let g = gathered_nothing c in
      let h = (pop_object c call fn g).1 in
      let n = count (fn.at_least_thiscall && is_none call.object_pointer_override) in
      let k =
        if is_complex_passed_by_value fn.return_data_type then 1 else count fn.returns_on_stack in
      let P : ℕ → Option (List Piece) × Gathered → Type 0 = λ n r. r.1.pending ≡ drop n h.pending in
      let object : h.pending ≡ drop n g.pending =
        by_test (λ n (r : List Piece × Gathered). r.1.pending ≡ drop n g.pending) 1 0
          (fn.at_least_thiscall && is_none call.object_pointer_override) _ _
          (virtual_stack_pop_expr-pending c void_ptr g).0 refl in
      let target : (pop_return_pointer c fn t h).1.pending ≡ drop k h.pending =
        by_test P 1 (count fn.returns_on_stack) (is_complex_passed_by_value fn.return_data_type) _ _
          (virtual_stack_pop_expr-pending c void_ptr h).0
          (by_test P 1 0 fn.returns_on_stack _ _ (virtual_stack_pop_expr-pending c void_ptr h).0
            refl) in
      target ∙ ap (drop k) object ∙ drop-drop k n g.pending

pub push_pointer_if-pending :
    (b : Bool) (e : List Piece) (g : Gathered) → (push_pointer_if b e g).pending ≡ g.pending
unfolding push_pointer_if push_abi_argument
push_pointer_if-pending true e g = refl
push_pointer_if-pending false e g = refl

-- The arguments that are there keep their places.
pub push_pointer_if-keeps :
    (b : Bool) (e : List Piece) (g : Gathered) (i : ℕ)
    → i < length g.args
    → get_elem? (push_pointer_if b e g).args i ≡ get_elem? g.args i
unfolding push_pointer_if push_abi_argument
push_pointer_if-keeps true e g i lt = get_elem?-append g.args _ i lt
push_pointer_if-keeps false e g i lt = refl

both-pending :
    (a b : Bool) (d e : List Piece) (g : Gathered)
    → (push_pointer_if b e (push_pointer_if a d g)).pending ≡ g.pending
both-pending a b d e g =
    push_pointer_if-pending b e (push_pointer_if a d g) ∙ push_pointer_if-pending a d g

pub push_hidden-pending :
    (abi : Abi) (complex method : Bool) (g : Gathered)
    → ForSome (λ h. h.pending ≡ g.pending) (push_hidden abi complex method g)
unfolding push_hidden
push_hidden-pending Abi.linux_gcc_x86_64 complex method g =
    both-pending complex method ret_ptr obj g
push_hidden-pending Abi.windows_mingw_x86_64 complex method g =
    both-pending complex method ret_ptr obj g
push_hidden-pending Abi.windows_msvc_x86_64 complex method g =
    both-pending method complex obj ret_ptr g
push_hidden-pending _ true method g = tt
push_hidden-pending _ false method g = push_pointer_if-pending method obj g
