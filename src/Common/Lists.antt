-- ===== src/Common/Lists.antt =====
-- Lists over the native numbers: a set is the list of its members, a map the list of its pairs.
use Prim.Native.Nat.{ℕ, zero, suc, ◌+◌}
use mathlib.Core.Path.{sym, ap, ◌≡◌, refl}
use mathlib.Core.Bool.{Bool, true, false, ◌||◌}
use mathlib.Core.Option.{Option, none, some}
use mathlib.Core.List.{List, [], ◌∷◌, ◌++◌}
use native.Mathlib.Omega.{arith}
use mathlib.Core.Logic.{◌⊎◌, inl, inr}
use angelsea.Common.Tests.{some-inj, ==_iff, Bool-cases, ◌==◌, if◌then◌else◌, ==_refl, Option-cases}

module _ {ℓ} {A : Type ℓ} where
  abbrev pub length : List A → ℕ
  length [] = 0
  length (x ∷ xs) = suc (length xs)

  abbrev pub get_elem? : List A → ℕ → Option A
  get_elem? [] i = none
  get_elem? (x ∷ xs) zero = some x
  get_elem? (x ∷ xs) (suc i) = get_elem? xs i

  pub length-append : (xs ys : List A) → length (xs ++ ys) ≡ length xs + length ys
  length-append [] ys = omega arith
  length-append (x ∷ xs) ys = omega (arith, length-append xs ys)

-- A predicate of every element, which computes to a tuple.
abbrev pub All {ℓ} : {A : Type ℓ} → (A → Type 0) → List A → Type 0
All P [] = Unit
All P (x ∷ xs) = P x × All P xs

pub All-append {ℓ} :
    {A : Type ℓ} (P : A → Type 0) (xs ys : List A) → All P xs → All P ys → All P (xs ++ ys)
All-append P [] ys hx hy = hy
All-append P (x ∷ xs) ys hx hy = (hx.0, All-append P xs ys hx.1 hy)

pub All-right {ℓ} : {A : Type ℓ} (P : A → Type 0) (xs ys : List A) → All P (xs ++ ys) → All P ys
All-right P [] ys h = h
All-right P (x ∷ xs) ys h = All-right P xs ys h.1

pub All-map {ℓ} :
    {A : Type ℓ} (P Q : A → Type 0) (xs : List A) → ((x : A) → P x → Q x) → All P xs → All Q xs
All-map P Q [] f h = tt
All-map P Q (x ∷ xs) f h = (f x h.0, All-map P Q xs f h.1)

-- `contains` of a set of numbers.
abbrev pub elem : ℕ → List ℕ → Bool
elem n [] = false
elem n (x ∷ xs) = x == n || elem n xs

pub elem-append : (n : ℕ) (xs ys : List ℕ) → elem n (xs ++ ys) ≡ (elem n xs || elem n ys)
elem-append n [] ys = refl
elem-append n (x ∷ xs) ys = ground (arith, elem-append n xs ys)

pub elem-single : (n x : ℕ) → elem n (x ∷ []) ≡ true → x ≡ n
elem-single n x h = ground arith

-- `find` in a map keyed by numbers: the first pair with the key.
module _ {ℓ} {V : Type ℓ} where
  abbrev pub lookup : ℕ → List (ℕ × V) → Option V
  lookup k [] = none
  lookup k ((j, v) ∷ m) = if j == k then some v else lookup k m

  -- `emplace`: an entry that is there already is kept.
  abbrev pub emplace : ℕ → V → List (ℕ × V) → List (ℕ × V)
  emplace k v m = elim (lookup k m) [ none ↦ (k, v) ∷ m | some _ ↦ m ]

  pub lookup-emplace :
      (k : ℕ) (v : V) (m : List (ℕ × V)) → lookup k m ≡ none → lookup k (emplace k v m) ≡ some v
  lookup-emplace k v m h = rw (emplace, h, ==_refl k) refl

  pub lookup-emplace_other :
      (k j : ℕ) (v : V) (m : List (ℕ × V))
      → (j == k) ≡ false
      → lookup k (emplace j v m) ≡ lookup k m
  lookup-emplace_other k j v m n = elim (Option-cases (lookup j m)) [
    | inl e ↦ rw (emplace, e, n) refl
    | inr (u, e) ↦ rw (emplace, e) refl
  ]

  pub lookup-emplace_kept :
      (k j : ℕ) (u v : V) (m : List (ℕ × V))
      → lookup k m ≡ some u
      → lookup k (emplace j v m) ≡ some u
  lookup-emplace_kept k j u v m h = elim (Option-cases (lookup j m)) [
    | inl e ↦ elim (Bool-cases (j == k)) [
      | inl i ↦ absurd (cc (e, ap (λ n. lookup n m) ((==_iff j k).0 i), h))
      | inr i ↦ rw (emplace, e, i) h
    ]
    | inr (w, e) ↦ rw (emplace, e) h
  ]

  -- What a key has afterwards it had before, unless it is the new one.
  pub lookup-emplace_cases :
      (k j : ℕ) (u v : V) (m : List (ℕ × V))
      → lookup k (emplace j v m) ≡ some u
      → (lookup k m ≡ some u) ⊎ ((k ≡ j) × (u ≡ v))
  lookup-emplace_cases k j u v m = elim (Option-cases (lookup j m)) [
    | inl e ↦ elim (Bool-cases (j == k)) [
      | inl i ↦ rw (emplace, e, i) (λ h. inr (sym ((==_iff j k).0 i), sym (some-inj v u h)))
      | inr i ↦ rw (emplace, e, i) (λ h. inl h)
    ]
    | inr (w, e) ↦ rw (emplace, e) (λ h. inl h)
  ]
