-- ===== src/StringUtil/RoundTrip.antt =====
-- What C reads of what escape_c_literal of include/angelsea/detail/stringutil.hpp writes.
use mathlib.Core.List.{append_assoc, append-nil}
use angelsea.Common.{
  ℕ, ◌<◌, true, ◌≡◌, refl, ap, ◌∙◌, none, some, List, [], ◌∷◌, ◌++◌, ltb, inl, inr, Bool-cases, All,
  arith,
}
use angelsea.StringUtil.Escape.{escape_c_literal}
use angelsea.StringUtil.Forms.{is_coded, TwoDigits, escape_char-Form, legal-plain}
use angelsea.StringUtil.Trigraphs.{NoTrigraphs, replace_trigraphs-escape_c_literal}
use angelsea.StringUtil.Literal.{
  hex_value, Reader, step_plain, step, finish, read_from, read_chars, read_literal,
}

-- A reader at the end of a character goes on as a plain one, unless a digit follows a
-- hexadecimal escape.
abbrev Follows : Reader → ℕ → Type 0
Follows (Reader.hex n out) c = hex_value c ≡ none
Follows r c = Unit

next-plain :
    (r : Reader) (w : List ℕ) (c : ℕ) → finish r ≡ some w → Follows r c → step r c ≡ step_plain w c
next-plain (Reader.plain out) w c h f = let q : out ≡ w = cc h in rw q refl
next-plain (Reader.escape out) w c h f = absurd (cc h)
next-plain (Reader.hex_start out) w c h f = absurd (cc h)
next-plain (Reader.hex n out) w c h f = elim (Bool-cases (ltb n 256)) [
  | inl e ↦ let q : out ++ (n ∷ []) ≡ w = cc (rw e at h) in rw (step, f, e, q) refl
  | inr e ↦ absurd (cc (rw e at h))
]

Follows-backslash : (r : Reader) → Follows r b'\\'
unfolding hex_value
Follows-backslash (Reader.plain out) = tt
Follows-backslash (Reader.escape out) = tt
Follows-backslash (Reader.hex_start out) = tt
Follows-backslash (Reader.hex n out) = refl

read-step :
    (r next : Reader) (c : ℕ) (s : List ℕ)
    → step r c ≡ some next
    → read_from (some r) (c ∷ s) ≡ read_from (some next) s
read-step r next c s e = ap (λ o. read_from o s) e

-- No hexadecimal escape has a hexadecimal digit behind it.
abbrev pub Separated : List ℕ → Type 0
Separated [] = Unit
Separated (c ∷ []) = Unit
Separated (c ∷ d ∷ s) = (is_coded c ≡ true → hex_value d ≡ none) × Separated (d ∷ s)

module _ (hex : ℕ → List ℕ) where
  -- A reader at the end of a character, and the text that comes next.
  abbrev FollowsAll : Reader → List ℕ → Type 0
  FollowsAll r [] = Unit
  FollowsAll r (c ∷ s) = Follows r c

  coded-follows :
      (c : ℕ) (w s : List ℕ) (n : ℕ)
      → is_coded c ≡ true
      → Separated (c ∷ s)
      → FollowsAll (Reader.hex n w) s
  coded-follows c w [] n e h = tt
  coded-follows c w (d ∷ s) n e h = h.0 e

  plain-follows : (w s : List ℕ) → FollowsAll (Reader.plain w) s
  plain-follows w [] = tt
  plain-follows w (d ∷ s) = tt

  Separated-tail : (c : ℕ) (s : List ℕ) → Separated (c ∷ s) → Separated s
  Separated-tail c [] h = tt
  Separated-tail c (d ∷ s) h = h.1

  module _ (two_digits : (c : ℕ) → c < 256 → TwoDigits hex c) where
    read-coded :
        (r : Reader) (w : List ℕ) (c : ℕ) (t : List ℕ)
        → finish r ≡ some w
        → c < 256
        → read_from (some r) (b'\\' ∷ b'x' ∷ (hex c ++ t)) ≡ read_from (some (Reader.hex c w)) t
    read-coded r w c t e b =
        let (h, l, x, y, eq, p, q, v) = two_digits c b in
        rw (read_from, next-plain r w b'\\' e (Follows-backslash r), eq, p, q, v) refl

    read-escape :
        (s : List ℕ) (r : Reader) (w : List ℕ)
        → finish r ≡ some w
        → FollowsAll r s
        → All (λ c. c < 256) s
        → Separated s
        → read_from (some r) (escape_c_literal hex s) ≡ some (w ++ s)
    unfolding escape_c_literal
    read-escape [] r w e f b h = e ∙ rw (append-nil w) refl
    read-escape (c ∷ s) r w e f b h = elim (escape_char-Form hex c) [
      | inl (l, q) ↦
          rw (q, read_from, next-plain r w c e f, legal-plain c w l)
            (read-escape s (Reader.plain (w ++ (c ∷ []))) (w ++ (c ∷ [])) refl
                (plain-follows (w ++ (c ∷ [])) s) b.1 (Separated-tail c s h)
              ∙ rw (append_assoc w (c ∷ []) s) refl)
      | inr (inl (x, q, g)) ↦ rw q (
          read-step r (Reader.escape w) b'\\' (x ∷ escape_c_literal hex s)
            (next-plain r w b'\\' e (Follows-backslash r))
          ∙ read-step (Reader.escape w) (Reader.plain (w ++ (c ∷ []))) x (escape_c_literal hex s)
              (g w)
          ∙ read-escape s (Reader.plain (w ++ (c ∷ []))) (w ++ (c ∷ [])) refl
              (plain-follows (w ++ (c ∷ [])) s) b.1 (Separated-tail c s h)
          ∙ rw (append_assoc w (c ∷ []) s) refl)
      | inr (inr (k, q)) ↦
          let fits : ltb c 256 ≡ true = ground (arith, b.0) in
          rw (q, read-coded r w c (escape_c_literal hex s) e b.0)
            (read-escape s (Reader.hex c w) (w ++ (c ∷ [])) (rw fits refl)
                (coded-follows c w s c k h) b.1 (Separated-tail c s h)
              ∙ rw (append_assoc w (c ∷ []) s) refl)
    ]

    -- C reads the escaped text back as the text, if no character that is written in hexadecimal
    -- has a hexadecimal digit behind it and the text has no trigraph; `hex` is the formatting of a
    -- byte as its two digits.
    pub read_literal-escape_c_literal :
        (s : List ℕ)
        → All (λ c. c < 256) s
        → Separated s
        → NoTrigraphs s
        → read_literal (escape_c_literal hex s) ≡ some s
    read_literal-escape_c_literal s b h n =
        ap read_chars (replace_trigraphs-escape_c_literal hex two_digits s b n)
        ∙ read-escape s (Reader.plain []) [] refl (plain-follows [] s) b h
