-- ===== src/Translate/Native/Layout.antt =====
-- The parameters of a native call (src/angelsea/detail/bytecode2c.cpp) on the script stack: each has
-- its offset, by which the cleaning of arguments finds the argument again.
use angelsea.Common.{
  ℕ, zero, suc, ◌+◌, ◌≤◌, ◌<◌, ◌≡◌, refl, ap, ◌∙◌, false, Option, none, some, List, [], ◌∷◌, length,
  lookup, All, arith, ◌==◌, lookup-emplace, lookup-emplace_other,
}
use angelsea.Translate.Engine.{DataType}
use angelsea.Translate.State.{Ctx}
use angelsea.Translate.Native.Gather.{
  Gathered, remember_argument, add_parameter, add_parameters, continue_with,
}
use angelsea.Translate.Native.Returns.{Returns, Returns-bind, Returns-pure, Returns-mono, ForSome}
use angelsea.Translate.Native.Moves.{taken, elided, Moves, stack_size, add_parameter-Moves}

abbrev pub params_size : List DataType → ℕ
params_size [] = 0
params_size (p ∷ l) = stack_size p + params_size l

-- Where a parameter stands behind the first one.
abbrev pub offset_of : ℕ → List DataType → ℕ
offset_of zero l = 0
offset_of (suc i) [] = 0
offset_of (suc i) (p ∷ l) = stack_size p + offset_of i l

-- No parameter is remembered at the current offset or above.
abbrev pub Fresh : Gathered → Type 0
Fresh g = (x : ℕ) → g.stack.real_stack_offset ≤ x → lookup x g.stack_offset_to_arg_id ≡ none

-- The parameters have been added to the arguments.
pub record Layout (c : Ctx) (params : List DataType) (g g' : Gathered) : Type 0 where
  pub taken_is : taken g'.stack ≡ taken g.stack + params_size params
  pub elided_is : elided c g'.stack g'.pending ≡ elided c g.stack g.pending
  pub offset_is : g'.stack.real_stack_offset ≡ g.stack.real_stack_offset + params_size params
  pub fresh_is : Fresh g'
  pub args_are : length g'.args ≡ length g.args + length params
  pub finds :
      (i : ℕ)
      → i < length params
      → lookup (g.stack.real_stack_offset + offset_of i params) g'.stack_offset_to_arg_id
        ≡ some (length g.args + i)
  pub keeps :
      (x : ℕ)
      → x < g.stack.real_stack_offset
      → lookup x g'.stack_offset_to_arg_id ≡ lookup x g.stack_offset_to_arg_id

different : (j k : ℕ) → j < k → (j == k) ≡ false
different j k lt = ground (arith, lt)

-- The state after one parameter.
next-Fresh :
    (c : Ctx) (param : DataType) (g h : Gathered)
    → 1 ≤ stack_size param
    → Fresh g
    → Moves c (stack_size param) 1 (remember_argument g) h
    → Fresh h
unfolding remember_argument
next-Fresh c param g h one fresh m x le =
    let off = g.stack.real_stack_offset in
    let above : off < x = omega (arith, m.offset_moves, one, le) in
    ap (lookup x) m.ids_kept
    ∙ lookup-emplace_other x off (length g.args) g.stack_offset_to_arg_id (different off x above)
    ∙ fresh x (omega (arith, above))

next-keeps :
    (c : Ctx) (n : ℕ) (g h : Gathered) (x : ℕ)
    → x < g.stack.real_stack_offset
    → Moves c n 1 (remember_argument g) h
    → lookup x h.stack_offset_to_arg_id ≡ lookup x g.stack_offset_to_arg_id
unfolding remember_argument
next-keeps c n g h x lt m =
    let off = g.stack.real_stack_offset in
    let other : (off == x) ≡ false = ground (arith, lt) in
    ap (lookup x) m.ids_kept
    ∙ lookup-emplace_other x off (length g.args) g.stack_offset_to_arg_id other

next-finds :
    (c : Ctx) (n : ℕ) (g h : Gathered)
    → Fresh g
    → Moves c n 1 (remember_argument g) h
    → lookup g.stack.real_stack_offset h.stack_offset_to_arg_id ≡ some (length g.args)
unfolding remember_argument
next-finds c n g h fresh m =
    ap (lookup g.stack.real_stack_offset) m.ids_kept
    ∙ lookup-emplace g.stack.real_stack_offset (length g.args) g.stack_offset_to_arg_id
        (fresh g.stack.real_stack_offset (omega arith))

module _ (c : Ctx) (param : DataType) (rest : List DataType) (g h g' : Gathered)
    (one : 1 ≤ stack_size param) (fresh : Fresh g)
    (m : Moves c (stack_size param) 1 (remember_argument g) h) (l : Layout c rest h g') where
  cons-finds :
      (i : ℕ)
      → i < length (param ∷ rest)
      → lookup (g.stack.real_stack_offset + offset_of i (param ∷ rest)) g'.stack_offset_to_arg_id
        ≡ some (length g.args + i)
  unfolding remember_argument
  cons-finds zero lt =
      let off = g.stack.real_stack_offset in
      let start : off + 0 ≡ off = omega arith in
      let first : length g.args + 0 ≡ length g.args = omega arith in
      let below : off < h.stack.real_stack_offset = omega (arith, m.offset_moves, one) in
      rw (start, first) (l.keeps off below ∙ next-finds c (stack_size param) g h fresh m)
  cons-finds (suc i) lt =
      let there : g.stack.real_stack_offset + (stack_size param + offset_of i rest)
          ≡ h.stack.real_stack_offset + offset_of i rest =
        omega (arith, m.offset_moves) in
      let id : length h.args + i ≡ length g.args + suc i = omega (arith, m.args_grow) in
      ap (λ o. lookup o g'.stack_offset_to_arg_id) there
      ∙ l.finds i (omega (arith, lt))
      ∙ ap some id

  Layout-cons : Layout c (param ∷ rest) g g'
  unfolding remember_argument
  Layout-cons = record {
    taken_is = omega (arith, m.taken_moves, l.taken_is);
    elided_is = l.elided_is ∙ m.elided_kept;
    offset_is = omega (arith, m.offset_moves, l.offset_is);
    fresh_is = l.fresh_is;
    args_are = omega (arith, m.args_grow, l.args_are);
    finds = cons-finds;
    keeps = λ x lt.
        l.keeps x (omega (arith, m.offset_moves, lt)) ∙ next-keeps c (stack_size param) g h x lt m;
  }

Layout-nil : (c : Ctx) (g : Gathered) → Fresh g → Layout c [] g g
Layout-nil c g fresh = record {
  taken_is = omega arith;
  elided_is = refl;
  offset_is = omega arith;
  fresh_is = fresh;
  args_are = omega arith;
  finds = λ i lt. absurd (omega (arith, lt));
  keeps = λ x lt. refl;
}

continue_with-Layout :
    (c : Ctx) (param : DataType) (rest : List DataType) (g : Gathered) (o : Option Gathered)
    → 1 ≤ stack_size param
    → Fresh g
    → ForSome (Moves c (stack_size param) 1 (remember_argument g)) o
    → ((h : Gathered) → Fresh h → Returns (ForSome (Layout c rest h)) (add_parameters c rest h))
    → Returns (ForSome (Layout c (param ∷ rest) g)) (continue_with (add_parameters c rest) o)
unfolding continue_with
continue_with-Layout c param rest g none one fresh m ih =
    Returns-pure (ForSome (Layout c (param ∷ rest) g)) none tt
continue_with-Layout c param rest g (some h) one fresh m ih =
    Returns-mono (ForSome (Layout c rest h)) (ForSome (Layout c (param ∷ rest) g))
      (add_parameters c rest h) (grows h m) (ih h (next-Fresh c param g h one fresh m))
  where
    grows :
        (h : Gathered)
        → Moves c (stack_size param) 1 (remember_argument g) h
        → (r : Option Gathered) → ForSome (Layout c rest h) r
        → ForSome (Layout c (param ∷ rest) g) r
    grows h m none l = tt
    grows h m (some g') l = Layout-cons c param rest g h g' one fresh m l

-- All parameters, whose sizes on the stack are not 0.
pub add_parameters-Layout :
    (c : Ctx) (params : List DataType) (g : Gathered)
    → All (λ p. 1 ≤ stack_size p) params
    → Fresh g
    → Returns (ForSome (Layout c params g)) (add_parameters c params g)
unfolding add_parameters
add_parameters-Layout c [] g ones fresh =
    Returns-pure (ForSome (Layout c [] g)) (some g) (Layout-nil c g fresh)
add_parameters-Layout c (param ∷ rest) g ones fresh =
    Returns-bind (ForSome (Moves c (stack_size param) 1 (remember_argument g)))
      (ForSome (Layout c (param ∷ rest) g)) (add_parameter c param g) _
      (add_parameter-Moves c param g)
      (λ o m.
        continue_with-Layout c param rest g o ones.0 fresh m
          (λ h. add_parameters-Layout c rest h ones.1))
