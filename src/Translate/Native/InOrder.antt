-- ===== src/Translate/Native/InOrder.antt =====
-- The arguments that a native call's parameters add (src/angelsea/detail/bytecode2c.cpp), in their
-- order.
use mathlib.Core.Path.{subst, sym}
use angelsea.Common.{
  ℕ, zero, suc, ◌+◌, ◌<◌, ◌≡◌, refl, ap, ◌∙◌, Option, none, some, List, [], ◌∷◌, ◌++◌, length,
  get_elem?, arith,
}
use angelsea.Translate.Engine.{DataType}
use angelsea.Translate.State.{Ctx}
use angelsea.Translate.Native.Gather.{
  Arg, Gathered, remember_argument, add_parameter, add_parameters, continue_with,
}
use angelsea.Translate.Native.Returns.{
  Returns, Returns-bind, Returns-pure, Returns-mono, Returns-both, ForSome,
}
use angelsea.Translate.Native.Moves.{taken, elided, Moves, stack_size, add_parameter-Moves}
use angelsea.Translate.Native.Layout.{offset_of}
use angelsea.Translate.Native.Popped.{drop, drop-drop, Reads, ReadAt, Adds, add_parameter-Adds}

pub get_elem?-append :
    {A : Type 0} (xs ys : List A) (i : ℕ) → i < length xs → get_elem? (xs ++ ys) i ≡ get_elem? xs i
get_elem?-append [] ys i lt = absurd (omega (arith, lt))
get_elem?-append (x ∷ xs) ys zero lt = refl
get_elem?-append (x ∷ xs) ys (suc i) lt = get_elem?-append xs ys i (omega (arith, lt))

get_elem?-length :
    {A : Type 0} (xs : List A) (y : A) → get_elem? (xs ++ (y ∷ [])) (length xs) ≡ some y
get_elem?-length [] y = refl
get_elem?-length (x ∷ xs) y = get_elem?-length xs y

-- The argument of each parameter reads what stands at the parameter's offset.
pub record InOrder (c : Ctx) (params : List DataType) (g g' : Gathered) : Type 0 where
  pub reads_at :
      (i : ℕ)
      → i < length params
      → ReadAt c
          (taken g.stack + offset_of i params)
          (drop i g.pending)
          (elided c g.stack g.pending)
          (get_elem? g'.args (length g.args + i))
  pub keeps : (i : ℕ) → i < length g.args → get_elem? g'.args i ≡ get_elem? g.args i

-- One parameter.
abbrev Step : Ctx → DataType → Gathered → Gathered → Type 0
Step c param g h =
    Moves c (stack_size param) 1 (remember_argument g) h × Adds (remember_argument g) h

module _ (c : Ctx) (param : DataType) (rest : List DataType) (g h g' : Gathered)
    (m : Moves c (stack_size param) 1 (remember_argument g) h) (a : Adds (remember_argument g) h)
    (l : InOrder c rest h g') where
  cons-reads_at :
      (i : ℕ)
      → i < length (param ∷ rest)
      → ReadAt c
          (taken g.stack + offset_of i (param ∷ rest))
          (drop i g.pending)
          (elided c g.stack g.pending)
          (get_elem? g'.args (length g.args + i))
  unfolding remember_argument
  cons-reads_at zero lt =
      let here : length g.args + 0 ≡ length g.args = omega arith in
      let below : length g.args < length h.args = omega (arith, m.args_grow) in
      record {
        arg = a.arg;
        stack = g.stack;
        is_there =
            ap (get_elem? g'.args) here
            ∙ l.keeps (length g.args) below
            ∙ ap (λ (args : List Arg). get_elem? args (length g.args)) a.added
            ∙ get_elem?-length g.args a.arg;
        reads = a.reads;
        taken_is = omega arith;
        elided_is = refl;
      }
  cons-reads_at (suc i) lt =
      let r = l.reads_at i (omega (arith, lt)) in
      let id : length g.args + suc i ≡ length h.args + i = omega (arith, m.args_grow) in
      let turn : 1 + i ≡ suc i = omega arith in
      let left : drop i h.pending ≡ drop (suc i) g.pending =
        ap (drop i) a.used ∙ drop-drop i 1 g.pending ∙ ap (λ k. drop k g.pending) turn in
      record {
        arg = r.arg;
        stack = r.stack;
        is_there = ap (get_elem? g'.args) id ∙ r.is_there;
        reads = subst (λ p. Reads r.stack p r.arg) left r.reads;
        taken_is = omega (arith, r.taken_is, m.taken_moves);
        elided_is = ap (elided c r.stack) (sym left) ∙ r.elided_is ∙ m.elided_kept;
      }

  InOrder-cons : InOrder c (param ∷ rest) g g'
  unfolding remember_argument
  InOrder-cons = record {
    reads_at = cons-reads_at;
    keeps = λ i lt.
        l.keeps i (omega (arith, m.args_grow, lt))
        ∙ ap (λ (args : List Arg). get_elem? args i) a.added
        ∙ get_elem?-append g.args (a.arg ∷ []) i lt;
  }

InOrder-nil : (c : Ctx) (g : Gathered) → InOrder c [] g g
InOrder-nil c g = record { reads_at = λ i lt. absurd (omega (arith, lt)); keeps = λ i lt. refl }

continue_with-InOrder :
    (c : Ctx) (param : DataType) (rest : List DataType) (g : Gathered) (o : Option Gathered)
    → ForSome (Step c param g) o
    → ((h : Gathered) → Returns (ForSome (InOrder c rest h)) (add_parameters c rest h))
    → Returns (ForSome (InOrder c (param ∷ rest) g)) (continue_with (add_parameters c rest) o)
unfolding continue_with
continue_with-InOrder c param rest g none m ih =
    Returns-pure (ForSome (InOrder c (param ∷ rest) g)) none tt
continue_with-InOrder c param rest g (some h) m ih =
    Returns-mono (ForSome (InOrder c rest h)) (ForSome (InOrder c (param ∷ rest) g))
      (add_parameters c rest h) (grows h m) (ih h)
  where
    grows :
        (h : Gathered)
        → Step c param g h
        → (r : Option Gathered) → ForSome (InOrder c rest h) r
        → ForSome (InOrder c (param ∷ rest) g) r
    grows h m none l = tt
    grows h m (some g') l = InOrder-cons c param rest g h g' m.0 m.1 l

-- All parameters.
pub add_parameters-InOrder :
    (c : Ctx) (params : List DataType) (g : Gathered)
    → Returns (ForSome (InOrder c params g)) (add_parameters c params g)
unfolding add_parameters
add_parameters-InOrder c [] g = Returns-pure (ForSome (InOrder c [] g)) (some g) (InOrder-nil c g)
add_parameters-InOrder c (param ∷ rest) g =
    Returns-bind (ForSome (Step c param g)) (ForSome (InOrder c (param ∷ rest) g))
      (add_parameter c param g) _
      (Returns-both (Moves c (stack_size param) 1 (remember_argument g))
        (Adds (remember_argument g)) (add_parameter c param g) (add_parameter-Moves c param g)
        (add_parameter-Adds c param g))
      (λ o m. continue_with-InOrder c param rest g o m (λ h. add_parameters-InOrder c rest h))
