-- ===== src/Translate/Native/Returns.antt =====
-- What every result of an emitting function (src/angelsea/detail/bytecode2c.cpp) has in common.
use angelsea.Common.{Bool, true, false, ◌≡◌, refl, Option, some, none, if◌then◌else◌}
use angelsea.Translate.State.{FnState, M, ◌>>=◌, ◌>>◌, pure}

-- Every result has the property.
unfoldable pub Returns : {A : Type 0} → (A → Type 0) → M A → Type 0
Returns P m = (s : FnState) → P (m s).0

abbrev pub IsTrue : Bool → Type 0
IsTrue b = b ≡ true

abbrev pub IsSome : {A : Type 0} → Option A → Type 0
IsSome {A} o = (a : A) × (o ≡ some a)

pub Returns-bind :
    {A B : Type 0} (P : A → Type 0) (Q : B → Type 0) (m : M A) (f : A → M B)
    → Returns P m
    → ((a : A) → P a → Returns Q (f a))
    → Returns Q (m >>= f)
unfolding Returns ◌>>=◌
Returns-bind P Q m f h k s = k (m s).0 (h s) (m s).1

pub Returns-then :
    {B : Type 0} (Q : B → Type 0) (m : M (Unit {0})) (k : M B) → Returns Q k → Returns Q (m >> k)
unfolding Returns ◌>>◌
Returns-then Q m k h s = h (m s).1

pub Returns-pure : {A : Type 0} (P : A → Type 0) (a : A) → P a → Returns P (pure a)
unfolding Returns pure
Returns-pure P a h s = h

pub Returns-if :
    {A : Type 0} (P : A → Type 0) (b : Bool) (m n : M A)
    → Returns P m
    → Returns P n
    → Returns P (if b then m else n)
Returns-if P true m n h k = h
Returns-if P false m n h k = k

pub Returns-true : Returns IsTrue (pure true)
Returns-true = Returns-pure IsTrue true refl

pub Returns-some : {A : Type 0} (a : A) → Returns (IsSome {A = A}) (pure (some a))
Returns-some {A} a = Returns-pure (IsSome {A = A}) (some a) (a, refl)

pub ruleset returns = (Returns-then, Returns-if, Returns-true, Returns-some)

-- The property of a result that is there.
abbrev pub ForSome : {A : Type 0} → (A → Type 0) → Option A → Type 0
ForSome P none = Unit
ForSome P (some a) = P a

pub Returns-mono :
    {A : Type 0} (P Q : A → Type 0) (m : M A) → ((a : A) → P a → Q a) → Returns P m → Returns Q m
unfolding Returns
Returns-mono P Q m f h s = f (m s).0 (h s)

pub Returns-any : {A : Type 0} (m : M A) → Returns (λ _. Unit {0}) m
unfolding Returns
Returns-any m s = tt

pub ForSome-both :
    {A : Type 0} (P Q : A → Type 0) (o : Option A)
    → ForSome P o
    → ForSome Q o
    → ForSome (λ a. P a × Q a) o
ForSome-both P Q none h k = tt
ForSome-both P Q (some a) h k = (h, k)

pub Returns-both :
    {A : Type 0} (P Q : A → Type 0) (m : M (Option A))
    → Returns (ForSome P) m
    → Returns (ForSome Q) m
    → Returns (ForSome (λ a. P a × Q a)) m
unfolding Returns
Returns-both P Q m h k s = ForSome-both P Q (m s).0 (h s) (k s)
