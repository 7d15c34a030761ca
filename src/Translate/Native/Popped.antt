-- ===== src/Translate/Native/Popped.antt =====
-- The gathered arguments of a native call (src/angelsea/detail/bytecode2c.cpp) in their order: what
-- the expression of each parameter's argument reads.
use mathlib.Core.List.{append_assoc}
use angelsea.Common.{
  ℕ, zero, suc, ◌+◌, ◌≡◌, refl, sym, ap, ◌∙◌, ◌⊎◌, inl, inr, Option, some, List, [], ◌∷◌, ◌++◌,
  arith, ◌||◌,
}
use angelsea.Translate.CCode.{Piece, CType}
use angelsea.Translate.Engine.{DataType}
use angelsea.Translate.State.{Ctx, pure}
use angelsea.Translate.Native.Types.{is_complex_passed_by_value, get_var_type, type_pieces}
use angelsea.Translate.Native.Gather.{
  VirtualStack, Arg, Gathered, pop_from, virtual_stack_pop_expr, push_abi_argument,
  push_stack_argument, push_value_argument, push_primitive_argument, remember_argument,
  add_parameter, take_pword, push_tmp_expr, stack_expr, void_ptr,
}
use angelsea.Translate.Native.Returns.{Returns, Returns-bind, Returns-pure, Returns-any, ForSome}
use angelsea.Translate.Native.Moves.{taken, elided, by_kind}

abbrev pub drop : ℕ → List ℕ → List ℕ
drop zero l = l
drop (suc n) [] = []
drop (suc n) (x ∷ l) = drop n l

drop-nil : (n : ℕ) → drop n [] ≡ []
drop-nil zero = refl
drop-nil (suc n) = refl

pub drop-drop : (m n : ℕ) (l : List ℕ) → drop m (drop n l) ≡ drop (n + m) l
drop-drop m zero l = ap (λ k. drop k l) (omega arith)
drop-drop m (suc n) [] = drop-nil m ∙ sym (drop-nil (suc n + m))
drop-drop m (suc n) (x ∷ l) =
    let step : suc (n + m) ≡ suc n + m = omega arith in
    drop-drop m n l ∙ ap (λ k. drop k (x ∷ l)) step

-- What is read where these pushes are left: the last of them, or the stack.
abbrev pub popped_expr : CType → VirtualStack → List ℕ → List Piece
popped_expr t v [] = stack_expr t v
popped_expr t v (p ∷ rest) = push_tmp_expr t p

abbrev dereference : CType → List Piece
dereference t = Piece.str "*" ∷ Piece.str "(" ∷ (type_pieces t ++ (Piece.str "*)" ∷ []))

-- An argument is what is read itself, or a value behind a pointer that is read.
abbrev pub Reads : VirtualStack → List ℕ → Arg → Type 0
Reads v l a =
    (a.expr ≡ popped_expr a.type v l) ⊎ (a.expr ≡ dereference a.type ++ popped_expr void_ptr v l)

-- The argument reads the stack behind x dwords of arguments, the pushes l being left, which with
-- those that have been used stand for n dwords.
pub record ReadAt (c : Ctx) (x : ℕ) (l : List ℕ) (n : ℕ) (o : Option Arg) : Type 0 where
  pub arg : Arg
  pub stack : VirtualStack
  pub is_there : o ≡ some arg
  pub reads : Reads stack l arg
  pub taken_is : taken stack ≡ x
  pub elided_is : elided c stack l ≡ n

-- From g to h one argument has been added, and a push used where there is one.
pub record Adds (g h : Gathered) : Type 0 where
  pub arg : Arg
  pub added : h.args ≡ g.args ++ (arg ∷ [])
  pub used : h.pending ≡ drop 1 g.pending
  pub reads : Reads g.stack g.pending arg

pop_from-pending :
    (c : Ctx) (t : CType) (g : Gathered) (l : List ℕ)
    → g.pending ≡ l
    → ((pop_from c t g l).1.pending ≡ drop 1 l)
      × ((pop_from c t g l).0 ≡ popped_expr t g.stack l)
      × ((pop_from c t g l).1.args ≡ g.args)
unfolding pop_from
pop_from-pending c t g [] e = (e, refl, refl)
pop_from-pending c t g (p ∷ rest) e = (refl, refl, refl)

-- One pop.
pub virtual_stack_pop_expr-pending :
    (c : Ctx) (t : CType) (g : Gathered)
    → ((virtual_stack_pop_expr c t g).1.pending ≡ drop 1 g.pending)
      × ((virtual_stack_pop_expr c t g).0 ≡ popped_expr t g.stack g.pending)
      × ((virtual_stack_pop_expr c t g).1.args ≡ g.args)
unfolding virtual_stack_pop_expr
virtual_stack_pop_expr-pending c t g = pop_from-pending c t g g.pending refl

push_stack_argument-Adds : (c : Ctx) (t : CType) (g : Gathered) → Adds g (push_stack_argument c t g)
unfolding push_stack_argument push_abi_argument
push_stack_argument-Adds c t g =
    let (used, expr, args) = virtual_stack_pop_expr-pending c t g in
    let arg : Arg = record { type = t; expr = (virtual_stack_pop_expr c t g).0 } in
    record { arg = arg; added = ap (λ l. l ++ (arg ∷ [])) args; used = used; reads = inl expr }

push_pointer_argument-Adds :
    (c : Ctx) (g : Gathered) → Adds g (take_pword (push_stack_argument c void_ptr g))
push_pointer_argument-Adds c g =
    let a = push_stack_argument-Adds c void_ptr g in
    record { arg = a.arg; added = a.added; used = a.used; reads = a.reads }

push_primitive_argument-Adds :
    (c : Ctx) (param : DataType) (t : CType) (g : Gathered)
    → Adds g (push_primitive_argument c param t g)
unfolding push_primitive_argument
push_primitive_argument-Adds c param t g =
    let a = push_stack_argument-Adds c t g in
    record { arg = a.arg; added = a.added; used = a.used; reads = a.reads }

push_value_argument-Adds : (c : Ctx) (t : CType) (g : Gathered) → Adds g (push_value_argument c t g)
unfolding push_value_argument push_abi_argument
push_value_argument-Adds c t g =
    let (used, expr, args) = virtual_stack_pop_expr-pending c void_ptr g in
    let popped = (virtual_stack_pop_expr c void_ptr g).0 in
    let star : List Piece → List Piece = λ l. Piece.str "*" ∷ Piece.str "(" ∷ l in
    let arg : Arg = record { type = t; expr = star (type_pieces t ++ (Piece.str "*)" ∷ popped)) } in
    record {
      arg = arg;
      added = ap (λ l. l ++ (arg ∷ [])) args;
      used = used;
      reads = inr (
          ap (λ e. star (type_pieces t ++ (Piece.str "*)" ∷ e))) expr
          ∙ ap star (sym (append_assoc (type_pieces t) (Piece.str "*)" ∷ []) _)));
    }

pub add_parameter-Adds :
    (c : Ctx) (param : DataType) (g : Gathered)
    → Returns (ForSome (Adds (remember_argument g))) (add_parameter c param g)
unfolding add_parameter
add_parameter-Adds c param g0 =
    let g = remember_argument g0 in
    let pointer = take_pword (push_stack_argument c void_ptr g) in
    by_kind (λ _. Adds g) param.size_on_stack_dwords param.is_question
      (param.is_reference || param.is_object_handle) param.is_primitive
      (is_complex_passed_by_value param) (pure (some pointer)) _ _
      (Returns-pure (ForSome (Adds g)) (some pointer) (push_pointer_argument-Adds c g))
      (Returns-bind (λ _. Unit {0}) (ForSome (Adds g)) (get_var_type param) _
        (Returns-any (get_var_type param))
        (λ t _.
          Returns-pure (ForSome (Adds g)) (some (push_primitive_argument c param t g))
            (push_primitive_argument-Adds c param t g)))
      (Returns-bind (λ _. Unit {0}) (ForSome (Adds g)) (get_var_type param) _
        (Returns-any (get_var_type param))
        (λ t _.
          Returns-pure (ForSome (Adds g)) (some (push_value_argument c t g))
            (push_value_argument-Adds c t g)))
