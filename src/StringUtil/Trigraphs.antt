-- ===== src/StringUtil/Trigraphs.antt =====
-- Trigraphs in what escape_c_literal of include/angelsea/detail/stringutil.hpp writes.
use mathlib.Core.Path.{subst}
use angelsea.Common.{
  sym, ℕ, ◌<◌, ◌≡◌, ◌≢◌, refl, ap, ◌∙◌, none, some, List, [], ◌∷◌, ◌++◌, ◌==◌, ==_iff, ◌⊎◌, inl,
  inr, All, Bool-cases, arith,
}
use angelsea.StringUtil.Escape.{escape_c_literal}
use angelsea.StringUtil.Literal.{hex_value, Reader, step, trigraph, replace_trigraphs}
use angelsea.StringUtil.Forms.{TwoDigits, escape_char-Form}

-- No trigraph begins with the character.
abbrev BeginsNone : ℕ → List ℕ → Type 0
BeginsNone a [] = Unit
BeginsNone a (b ∷ []) = Unit
BeginsNone a (b ∷ c ∷ rest) = a ≡ b'?' → b ≡ b'?' → trigraph c ≡ none

abbrev pub NoTrigraphs : List ℕ → Type 0
NoTrigraphs [] = Unit
NoTrigraphs (a ∷ rest) = BeginsNone a rest × NoTrigraphs rest

replace_trigraphs-NoTrigraphs : (s : List ℕ) → NoTrigraphs s → replace_trigraphs s ≡ s
unfolding replace_trigraphs
replace_trigraphs-NoTrigraphs [] n = refl
replace_trigraphs-NoTrigraphs (a ∷ []) n = refl
replace_trigraphs-NoTrigraphs (a ∷ b ∷ []) n = refl
replace_trigraphs-NoTrigraphs (a ∷ b ∷ c ∷ rest) n =
    let kept = ap (λ l. a ∷ l) (replace_trigraphs-NoTrigraphs (b ∷ c ∷ rest) n.1) in
    elim (Bool-cases (a == b'?')) [
      | inr e ↦ rw e kept
      | inl e ↦ elim (Bool-cases (b == b'?')) [
        | inr d ↦ rw (e, d) kept
        | inl d ↦ let t = n.0 ((==_iff a b'?').0 e) ((==_iff b b'?').0 d) in rw (e, d, t) kept
      ]
    ]

backslash-BeginsNone : (t : List ℕ) → BeginsNone b'\\' t
backslash-BeginsNone [] = tt
backslash-BeginsNone (b ∷ []) = tt
backslash-BeginsNone (b ∷ c ∷ rest) = λ e. absurd (omega (arith, e))

other-BeginsNone : (a : ℕ) (t : List ℕ) → a ≢ b'?' → BeginsNone a t
other-BeginsNone a [] n = tt
other-BeginsNone a (b ∷ []) n = tt
other-BeginsNone a (b ∷ c ∷ rest) n = λ e. absurd (n e)

next-backslash : (a : ℕ) (t : List ℕ) → BeginsNone a (b'\\' ∷ t)
next-backslash a [] = tt
next-backslash a (b ∷ t) = λ _ e. absurd (omega (arith, e))

digit-other : (d v : ℕ) → hex_value d ≡ some v → d ≢ b'?'
unfolding hex_value
digit-other d v h e = absurd (cc (rw e at h))

letter-other : (x c : ℕ) → step (Reader.escape []) x ≡ some (Reader.plain (c ∷ [])) → x ≢ b'?'
letter-other x c h e = absurd (cc (rw e at h))

module _ (hex : ℕ → List ℕ) where
  -- An escaped text begins as the text does, or with a backslash.
  escape-Start :
      (c : ℕ) (s : List ℕ)
      → (escape_c_literal hex (c ∷ s) ≡ c ∷ escape_c_literal hex s)
        ⊎ ((t : List ℕ) × (escape_c_literal hex (c ∷ s) ≡ b'\\' ∷ t))
  unfolding escape_c_literal
  escape-Start c s = elim (escape_char-Form hex c) [
    | inl (l, q) ↦ inl (rw q refl)
    | inr (inl (x, q, g)) ↦ inr (x ∷ escape_c_literal hex s, rw q refl)
    | inr (inr (k, q)) ↦ inr (b'x' ∷ (hex c ++ escape_c_literal hex s), rw q refl)
  ]

  third : (a c : ℕ) (s : List ℕ) → BeginsNone a (b'?' ∷ c ∷ s) → a ≡ b'?' → trigraph c ≡ none
  third a c s h e = h e refl

  escape-BeginsNone : (a : ℕ) (s : List ℕ) → BeginsNone a s → BeginsNone a (escape_c_literal hex s)
  unfolding escape_c_literal trigraph
  escape-BeginsNone a [] h = tt
  escape-BeginsNone a (b ∷ []) h = elim (escape-Start b []) [
    | inl e ↦ subst (BeginsNone a) (sym e) tt
    | inr (t, e) ↦ subst (BeginsNone a) (sym e) (next-backslash a t)
  ]
  escape-BeginsNone a (b ∷ c ∷ s) h = elim (escape-Start b (c ∷ s)) [
    | inr (t, e) ↦ subst (BeginsNone a) (sym e) (next-backslash a t)
    | inl e ↦ elim (escape-Start c s) [
      | inl d ↦ subst (BeginsNone a) (sym (e ∙ ap (λ l. b ∷ l) d)) h
      | inr (t, d) ↦ subst (BeginsNone a) (sym (e ∙ ap (λ l. b ∷ l) d)) (λ _ _. refl)
    ]
  ]

  module _ (two_digits : (c : ℕ) → c < 256 → TwoDigits hex c) where
    escape-NoTrigraphs :
        (s : List ℕ) → All (λ c. c < 256) s → NoTrigraphs s → NoTrigraphs (escape_c_literal hex s)
    unfolding escape_c_literal
    escape-NoTrigraphs [] b n = tt
    escape-NoTrigraphs (c ∷ s) b n =
        let rest = escape-NoTrigraphs s b.1 n.1 in
        elim (escape_char-Form hex c) [
          | inl (l, q) ↦ rw q (escape-BeginsNone c s n.0, rest)
          | inr (inl (x, q, g)) ↦ rw q (
            backslash-BeginsNone (x ∷ escape_c_literal hex s),
            (other-BeginsNone x (escape_c_literal hex s) (letter-other x c (g [])), rest),
          )
          | inr (inr (k, q)) ↦
              let (h, l, x, y, eq, u, v, w) = two_digits c b.0 in
              let t = escape_c_literal hex s in
              rw (q, eq)
                (
                  backslash-BeginsNone (b'x' ∷ h ∷ l ∷ t),
                  (
                    other-BeginsNone b'x' (h ∷ l ∷ t) (λ e. absurd (omega (arith, e))),
                    (
                      other-BeginsNone h (l ∷ t) (digit-other h x u),
                      (other-BeginsNone l t (digit-other l y v), rest),
                    ),
                  ),
                )
        ]

    pub replace_trigraphs-escape_c_literal :
        (s : List ℕ)
        → All (λ c. c < 256) s
        → NoTrigraphs s
        → replace_trigraphs (escape_c_literal hex s) ≡ escape_c_literal hex s
    replace_trigraphs-escape_c_literal s b n =
        replace_trigraphs-NoTrigraphs (escape_c_literal hex s) (escape-NoTrigraphs s b n)
