-- ===== src/Translate/Native/Moves.antt =====
-- Gathering the arguments of a native call (src/angelsea/detail/bytecode2c.cpp): how the virtual
-- stack moves. Sizes are in dwords, with pointers of two.
use angelsea.Common.{
  ℕ, ◌+◌, ◌*◌, ◌≡◌, refl, sym, ap, ◌∙◌, Bool, true, false, ◌||◌, Option, none, some, List, [], ◌∷◌,
  length, length-append, lookup, if◌then◌else◌, arith,
}
use angelsea.Bytecode.VarType.{VarType}
use angelsea.Translate.CCode.{Piece, CType}
use angelsea.Translate.Engine.{DataType}
use angelsea.Translate.State.{Ctx, M, pure}
use angelsea.Translate.Native.Types.{is_complex_passed_by_value, get_var_type}
use angelsea.Translate.Native.Gather.{
  VirtualStack, inject, Gathered, pop_from, virtual_stack_pop_expr, push_abi_argument,
  push_stack_argument, take_pword, push_value_argument, remember_argument, push_primitive_argument,
  add_parameter, void_ptr,
}
use angelsea.Translate.Native.Returns.{Returns, Returns-bind, Returns-pure, Returns-any, ForSome}

-- The size of what a push puts on the stack.
unfoldable pub push_size : Option VarType → ℕ
push_size (some VarType.u32) = 1
push_size (some VarType.u64) = 2
push_size (some VarType.pword) = 2
push_size (some VarType.void_ptr) = 2
push_size _ = 0

abbrev pub pushes_size : Ctx → List ℕ → ℕ
pushes_size c [] = 0
pushes_size c (p ∷ l) = push_size (lookup p c.found.stack_push_infos) + pushes_size c l

abbrev pub taken : VirtualStack → ℕ
taken v = v.taken_dwords + v.taken_pwords * 2

-- What elided pushes stood for: those that arguments were taken from, and those that are left.
abbrev pub elided : Ctx → VirtualStack → List ℕ → ℕ
elided c v l = v.injected_dwords + v.injected_pwords * 2 + pushes_size c l

-- From g to g' the arguments on the stack grow by n dwords, and the gathered ones by k.
pub record Moves (c : Ctx) (n k : ℕ) (g g' : Gathered) : Type 0 where
  pub taken_moves : taken g'.stack ≡ taken g.stack + n
  pub offset_moves : g'.stack.real_stack_offset ≡ g.stack.real_stack_offset + n
  pub elided_kept : elided c g'.stack g'.pending ≡ elided c g.stack g.pending
  pub args_grow : length g'.args ≡ length g.args + k
  pub ids_kept : g'.stack_offset_to_arg_id ≡ g.stack_offset_to_arg_id

inject-size :
    (c : Ctx) (o : Option VarType) (v : VirtualStack) (l : List ℕ)
    → (taken (inject o v) ≡ taken v)
      × ((inject o v).real_stack_offset ≡ v.real_stack_offset)
      × (elided c (inject o v) l
          ≡ v.injected_dwords + v.injected_pwords * 2 + (push_size o + pushes_size c l))
unfolding inject push_size
inject-size c (some VarType.u32) v l = (refl, refl, omega arith)
inject-size c (some VarType.u64) v l = (refl, refl, omega arith)
inject-size c (some VarType.pword) v l = (refl, refl, omega arith)
inject-size c (some VarType.void_ptr) v l = (refl, refl, omega arith)
inject-size c _ v l = (refl, refl, omega arith)

pop_from-Moves :
    (c : Ctx) (t : CType) (g : Gathered) (l : List ℕ)
    → g.pending ≡ l
    → Moves c 0 0 g (pop_from c t g l).1
unfolding pop_from
pop_from-Moves c t g [] e = record {
  taken_moves = omega arith;
  offset_moves = omega arith;
  elided_kept = refl;
  args_grow = omega arith;
  ids_kept = refl;
}
pop_from-Moves c t g (p ∷ rest) e =
    let (x, y, z) = inject-size c (lookup p c.found.stack_push_infos) g.stack rest in
    record {
      taken_moves = omega (arith, x);
      offset_moves = omega (arith, y);
      elided_kept = z ∙ ap (elided c g.stack) (sym e);
      args_grow = omega arith;
      ids_kept = refl;
    }

pub virtual_stack_pop_expr-Moves :
    (c : Ctx) (t : CType) (g : Gathered) → Moves c 0 0 g (virtual_stack_pop_expr c t g).1
unfolding virtual_stack_pop_expr
virtual_stack_pop_expr-Moves c t g = pop_from-Moves c t g g.pending refl

pub Moves-refl : (c : Ctx) (g : Gathered) → Moves c 0 0 g g
Moves-refl c g = record {
  taken_moves = omega arith;
  offset_moves = omega arith;
  elided_kept = refl;
  args_grow = omega arith;
  ids_kept = refl;
}

pub Moves-trans :
    (c : Ctx) (n k m j : ℕ) (g h i : Gathered)
    → Moves c n k g h
    → Moves c m j h i
    → Moves c (n + m) (k + j) g i
Moves-trans c n k m j g h i a b = record {
  taken_moves = omega (arith, a.taken_moves, b.taken_moves);
  offset_moves = omega (arith, a.offset_moves, b.offset_moves);
  elided_kept = b.elided_kept ∙ a.elided_kept;
  args_grow = omega (arith, a.args_grow, b.args_grow);
  ids_kept = b.ids_kept ∙ a.ids_kept;
}

pub push_abi_argument-Moves :
    (c : Ctx) (t : CType) (e : List Piece) (g : Gathered) → Moves c 0 1 g (push_abi_argument t e g)
unfolding push_abi_argument
push_abi_argument-Moves c t e g = record {
  taken_moves = omega arith;
  offset_moves = omega arith;
  elided_kept = refl;
  args_grow = length-append g.args (record { type = t; expr = e } ∷ []);
  ids_kept = refl;
}

pub take_pword-Moves : (c : Ctx) (g : Gathered) → Moves c 2 0 g (take_pword g)
take_pword-Moves c g = record {
  taken_moves = omega arith;
  offset_moves = omega arith;
  elided_kept = refl;
  args_grow = omega arith;
  ids_kept = refl;
}

push_stack_argument-Moves :
    (c : Ctx) (t : CType) (g : Gathered) → Moves c 0 1 g (push_stack_argument c t g)
unfolding push_stack_argument
push_stack_argument-Moves c t g =
    let x = virtual_stack_pop_expr c t g in
    Moves-trans c 0 0 0 1 g x.1 _ (virtual_stack_pop_expr-Moves c t g)
      (push_abi_argument-Moves c t x.0 x.1)

push_pointer_argument-Moves :
    (c : Ctx) (g : Gathered) → Moves c 2 1 g (take_pword (push_stack_argument c void_ptr g))
push_pointer_argument-Moves c g =
    let h = push_stack_argument c void_ptr g in
    Moves-trans c 0 1 2 0 g h _ (push_stack_argument-Moves c void_ptr g) (take_pword-Moves c h)

push_value_argument-Moves :
    (c : Ctx) (t : CType) (g : Gathered) → Moves c 2 1 g (push_value_argument c t g)
unfolding push_value_argument push_abi_argument
push_value_argument-Moves c t g =
    let x = virtual_stack_pop_expr c void_ptr g in
    let m = virtual_stack_pop_expr-Moves c void_ptr g in
    record {
      taken_moves = omega (arith, m.taken_moves);
      offset_moves = omega (arith, m.offset_moves);
      elided_kept = m.elided_kept;
      args_grow = omega (arith, m.args_grow, length-append x.1.args (_ ∷ []));
      ids_kept = m.ids_kept;
    }

push_primitive_argument-Moves :
    (c : Ctx) (param : DataType) (t : CType) (g : Gathered)
    → Moves c param.size_on_stack_dwords 1 g (push_primitive_argument c param t g)
unfolding push_primitive_argument
push_primitive_argument-Moves c param t g =
    let m = push_stack_argument-Moves c t g in
    record {
      taken_moves = omega (arith, m.taken_moves);
      offset_moves = omega (arith, m.offset_moves);
      elided_kept = m.elided_kept;
      args_grow = m.args_grow;
      ids_kept = m.ids_kept;
    }

-- The size of a parameter on the script stack: values that are not primitive are behind a pointer.
abbrev pub stack_size : DataType → ℕ
stack_size param =
    if param.is_reference || param.is_object_handle
    then 2
    else if param.is_primitive
    then param.size_on_stack_dwords
    else 2

-- The kinds of parameters, by their tests.
pub by_kind :
    (P : ℕ → Gathered → Type 0) (n : ℕ) (q r p x : Bool)
    (pointer primitive value : M (Option Gathered))
    → Returns (ForSome (P 2)) pointer
    → Returns (ForSome (P n)) primitive
    → Returns (ForSome (P 2)) value
    → Returns (ForSome (P (if r then 2 else if p then n else 2))) (
        if q
        then pure none
        else if r
        then pointer
        else if p
        then primitive
        else if x
        then pointer
        else value)
by_kind P n true r p x pointer primitive value a b d = Returns-pure (ForSome _) none tt
by_kind P n false true p x pointer primitive value a b d = a
by_kind P n false false true x pointer primitive value a b d = b
by_kind P n false false false true pointer primitive value a b d = a
by_kind P n false false false false pointer primitive value a b d = d

-- A parameter moves the stack by its size, and is one argument.
pub add_parameter-Moves :
    (c : Ctx) (param : DataType) (g : Gathered)
    → Returns
        (ForSome (Moves c (stack_size param) 1 (remember_argument g)))
        (add_parameter c param g)
unfolding add_parameter
add_parameter-Moves c param g0 =
    let g = remember_argument g0 in
    let pointer = take_pword (push_stack_argument c void_ptr g) in
    by_kind (λ n. Moves c n 1 g) param.size_on_stack_dwords param.is_question
      (param.is_reference || param.is_object_handle) param.is_primitive
      (is_complex_passed_by_value param) (pure (some pointer)) _ _
      (Returns-pure (ForSome (Moves c 2 1 g)) (some pointer) (push_pointer_argument-Moves c g))
      (Returns-bind (λ _. Unit {0}) (ForSome (Moves c param.size_on_stack_dwords 1 g))
        (get_var_type param) _ (Returns-any (get_var_type param))
        (λ t _.
          Returns-pure (ForSome (Moves c param.size_on_stack_dwords 1 g))
            (some (push_primitive_argument c param t g))
            (push_primitive_argument-Moves c param t g)))
      (Returns-bind (λ _. Unit {0}) (ForSome (Moves c 2 1 g)) (get_var_type param) _
        (Returns-any (get_var_type param))
        (λ t _.
          Returns-pure (ForSome (Moves c 2 1 g)) (some (push_value_argument c t g))
            (push_value_argument-Moves c t g)))
