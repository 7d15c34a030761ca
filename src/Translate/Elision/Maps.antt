-- ===== src/Translate/Elision/Maps.antt =====
-- The map stack_push_infos of src/angelsea/detail/bytecode2c.cpp, to which the pushes before a call
-- are added.
use mathlib.Core.List.{Memᴰ}
use mathlib.Core.List.Memᴰ.{head, tail}
use angelsea.Common.{
  ◌+◌, arith, ◌<◌, ◌≤◌, ℕ, false, ◌≡◌, ◌∙◌, none, some, List, [], ◌∷◌, ◌++◌, map, ◌==◌, ◌⊎◌, inl,
  inr, lookup, All, emplace, lookup-emplace, lookup-emplace_other, lookup-emplace_kept,
  lookup-emplace_cases,
}
use angelsea.Bytecode.VarType.{VarType}
use angelsea.Bytecode.Ins.{place, Ins, operand_type, push_value}
use angelsea.Translate.Discover.{emplace_all}

-- The type of the value that an instruction pushes, and the entry of its temporary.
abbrev pub pushed_type : Ins → VarType
pushed_type x = elim (push_value x.opcode x) [
  | none ↦ VarType.empty
  | some operand ↦ operand_type operand
]

abbrev pub push_entry : Ins → ℕ × VarType
push_entry x = (x.offset, pushed_type x)

-- No offset stands there twice.
abbrev pub Apart : Ins → List Ins → Type 0
Apart x l = All (λ y. (x.offset == y.offset) ≡ false) l

abbrev pub Distinct : List Ins → Type 0
Distinct [] = Unit
Distinct (x ∷ l) = Apart x l × Distinct l

-- An instruction has no temporary, or the one for its value.
abbrev pub Fresh : List (ℕ × VarType) → Ins → Type 0
Fresh m x = lookup x.offset m ≡ none

abbrev pub Typed : List (ℕ × VarType) → Ins → Type 0
Typed m x = lookup x.offset m ≡ some (pushed_type x)

pub emplace_all-kept :
    (k : ℕ) (t : VarType) (l m : List (ℕ × VarType))
    → lookup k m ≡ some t
    → lookup k (emplace_all l m) ≡ some t
emplace_all-kept k t [] m h = h
emplace_all-kept k t ((j, u) ∷ l) m h =
    emplace_all-kept k t l (emplace j u m) (lookup-emplace_kept k j t u m h)

pub emplace_all-cases :
    (k : ℕ) (t : VarType) (l m : List (ℕ × VarType))
    → lookup k (emplace_all l m) ≡ some t
    → (lookup k m ≡ some t) ⊎ Memᴰ (k, t) l
emplace_all-cases k t [] m h = inl h
emplace_all-cases k t ((j, u) ∷ l) m h = elim (emplace_all-cases k t l (emplace j u m) h) [
  | inl e ↦ elim (lookup-emplace_cases k j t u m e) [
    | inl old ↦ inl old
    | inr (p, q) ↦ inr (head (cc (p, q)))
  ]
  | inr later ↦ inr (tail later)
]

emplace-Fresh :
    (x : Ins) (t : VarType) (l : List Ins) (m : List (ℕ × VarType))
    → Apart x l
    → All (Fresh m) l
    → All (Fresh (emplace x.offset t m)) l
emplace-Fresh x t [] m a f = tt
emplace-Fresh x t (y ∷ l) m a f =
    (lookup-emplace_other y.offset x.offset t m a.0 ∙ f.0, emplace-Fresh x t l m a.1 f.1)

-- Behind the pushes of a call, what was without a temporary still is.
pub emplace_all-Fresh :
    (run rest : List Ins) (m : List (ℕ × VarType))
    → Distinct (run ++ rest)
    → All (Fresh m) (run ++ rest)
    → All (Fresh (emplace_all (map push_entry run) m)) rest
emplace_all-Fresh [] rest m d f = f
emplace_all-Fresh (x ∷ run) rest m d f =
    emplace_all-Fresh run rest (emplace x.offset (pushed_type x) m) d.1
      (emplace-Fresh x (pushed_type x) (run ++ rest) m d.0 f.1)

-- The pushes of a call get a temporary of their type.
pub emplace_all-Typed :
    (run rest : List Ins) (m : List (ℕ × VarType))
    → Distinct (run ++ rest)
    → All (Fresh m) (run ++ rest)
    → All (Typed (emplace_all (map push_entry run) m)) run
emplace_all-Typed [] rest m d f = tt
emplace_all-Typed (x ∷ run) rest m d f =
    let m' = emplace x.offset (pushed_type x) m in
    (
      emplace_all-kept x.offset (pushed_type x) (map push_entry run) m'
          (lookup-emplace x.offset (pushed_type x) m f.0),
      emplace_all-Typed run rest m' d.1 (emplace-Fresh x (pushed_type x) (run ++ rest) m d.0 f.1),
    )

place-Apart : (x : Ins) (n : ℕ) (l : List Ins) → x.offset < n → Apart x (place n l)
unfolding place
place-Apart x n [] h = tt
place-Apart x n (y ∷ l) h = (ground arith, place-Apart x (n + y.size) l (omega arith))

-- The iteration over the bytecode gives distinct offsets, since every instruction has a size.
pub place-Distinct : (n : ℕ) (l : List Ins) → All (λ x. 1 ≤ x.size) l → Distinct (place n l)
unfolding place
place-Distinct n [] h = tt
place-Distinct n (x ∷ l) h = (
  place-Apart (record x { offset = n }) (n + x.size) l (omega (arith, h.0)),
  place-Distinct (n + x.size) l h.1,
)

pub Distinct-right : (xs ys : List Ins) → Distinct (xs ++ ys) → Distinct ys
Distinct-right [] ys h = h
Distinct-right (x ∷ xs) ys h = Distinct-right xs ys h.1

-- The calls behind one that takes pushes still take none.
pub emplace-new :
    (x : Ins) (ks : List ℕ) (l : List Ins) (m : List (ℕ × List ℕ))
    → Apart x l
    → All (λ y. lookup y.offset m ≡ none) l
    → All (λ y. lookup y.offset (emplace x.offset ks m) ≡ none) l
emplace-new x ks [] m a n = tt
emplace-new x ks (y ∷ l) m a n =
    (lookup-emplace_other y.offset x.offset ks m a.0 ∙ n.0, emplace-new x ks l m a.1 n.1)
