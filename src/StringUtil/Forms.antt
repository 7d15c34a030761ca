-- ===== src/StringUtil/Forms.antt =====
-- The forms in which escape_c_literal of include/angelsea/detail/stringutil.hpp writes a character.
use angelsea.Common.{
  ℕ, ◌+◌, ◌*◌, Bool, true, false, ◌≡◌, refl, ◌||◌, some, List, [], ◌∷◌, ◌++◌, ◌==◌, ==_iff, inl,
  inr, ◌⊎◌, not, Bool-cases, leb, ◌&&◌, arith,
}
use angelsea.StringUtil.Escape.{is_alpha_numerical, is_legal, escape_char}
use angelsea.StringUtil.Literal.{hex_value, Reader, step_plain, step}

-- The characters that are written as a hexadecimal escape.
abbrev pub is_coded : ℕ → Bool
is_coded c = not (is_legal c || (c == 13 || (c == 10 || (c == 9 || (c == b'"' || c == b'\\')))))

-- `{:02x}` of a byte: its two digits.
abbrev pub TwoDigits : (ℕ → List ℕ) → ℕ → Type 0
TwoDigits hex c =
    (h : ℕ) × (l : ℕ) × (a : ℕ) × (b : ℕ) × (hex c ≡ h ∷ l ∷ [])
    × (hex_value h ≡ some a)
    × (hex_value l ≡ some b)
    × (16 * a + b ≡ c)

pub digit-legal : (d v : ℕ) → hex_value d ≡ some v → is_legal d ≡ true
unfolding hex_value is_legal is_alpha_numerical
digit-legal d v h = elim (Bool-cases (leb b'0' d && leb d b'9')) [
  | inl e ↦ ground arith
  | inr n ↦ elim (Bool-cases (leb b'a' d && leb d b'f')) [
    | inl e ↦ ground arith
    | inr m ↦ elim (Bool-cases (leb b'A' d && leb d b'F')) [
      | inl e ↦ ground arith
      | inr k ↦ absurd (cc (rw (n, m, k) at h))
    ]
  ]
]

-- A legal character stands for itself.
pub legal-plain :
    (c : ℕ) (out : List ℕ)
    → is_legal c ≡ true
    → step_plain out c ≡ some (Reader.plain (out ++ (c ∷ [])))
unfolding is_legal is_alpha_numerical
legal-plain c out h = elim (Bool-cases (c == b'"')) [
  | inl e ↦ absurd (cc (rw ((==_iff c b'"').0 e) at h))
  | inr q ↦ elim (Bool-cases (c == 10)) [
    | inl e ↦ absurd (cc (rw ((==_iff c 10).0 e) at h))
    | inr n ↦ elim (Bool-cases (c == b'\\')) [
      | inl e ↦ absurd (cc (rw ((==_iff c b'\\').0 e) at h))
      | inr b ↦ rw (q, n, b) refl
    ]
  ]
]

module _ (hex : ℕ → List ℕ) where
  -- A character stands for itself, or is written with a letter behind a backslash, or in hexadecimal.
  abbrev pub Form : ℕ → Type 0
  Form c =
      (is_legal c ≡ true) × (escape_char hex c ≡ c ∷ [])
      ⊎ (((x : ℕ) × (escape_char hex c ≡ b'\\' ∷ x ∷ [])
            × ((out : List ℕ) → step (Reader.escape out) x ≡ some (Reader.plain (out ++ (c ∷ [])))))
          ⊎ (is_coded c ≡ true) × (escape_char hex c ≡ b'\\' ∷ b'x' ∷ hex c))

  pub escape_char-Form : (c : ℕ) → Form c
  unfolding escape_char
  escape_char-Form c = elim (Bool-cases (is_legal c)) [
    | inl l ↦ inl (l, rw l refl)
    | inr l ↦ elim (Bool-cases (c == 13)) [
      | inl e ↦ inr (inl (b'r', rw (l, e) refl, λ out. rw ((==_iff c 13).0 e) refl))
      | inr r ↦ elim (Bool-cases (c == 10)) [
        | inl e ↦ inr (inl (b'n', rw (l, r, e) refl, λ out. rw ((==_iff c 10).0 e) refl))
        | inr n ↦ elim (Bool-cases (c == 9)) [
          | inl e ↦ inr (inl (b't', rw (l, r, n, e) refl, λ out. rw ((==_iff c 9).0 e) refl))
          | inr t ↦ elim (Bool-cases (c == b'"')) [
            | inl e ↦
                inr (inl (b'"', rw (l, r, n, t, e) refl, λ out. rw ((==_iff c b'"').0 e) refl))
            | inr q ↦ elim (Bool-cases (c == b'\\')) [
              | inl e ↦
                  inr
                    (inl (b'\\', rw (l, r, n, t, q, e) refl, λ out. rw ((==_iff c b'\\').0 e) refl))
              | inr b ↦ inr (inr (rw (l, r, n, t, q, b) refl, rw (l, r, n, t, q, b) refl))
            ]
          ]
        ]
      ]
    ]
  ]

  pub legal-escape : (c : ℕ) → is_legal c ≡ true → escape_char hex c ≡ c ∷ []
  unfolding escape_char
  legal-escape c l = rw l refl

  pub coded-escape : (c : ℕ) → is_coded c ≡ true → escape_char hex c ≡ b'\\' ∷ b'x' ∷ hex c
  unfolding escape_char
  coded-escape c k =
      let (l, r, n, t, q, b) =
        none_of (is_legal c) (c == 13) (c == 10) (c == 9) (c == b'"') (c == b'\\') k in
      rw (l, r, n, t, q, b) refl
    where
      none_of :
          (a b c d e f : Bool)
          → not (a || (b || (c || (d || (e || f))))) ≡ true
          → (a ≡ false) × (b ≡ false) × (c ≡ false) × (d ≡ false) × (e ≡ false) × (f ≡ false)
      none_of a b c d e f h = ground (arith, h)
