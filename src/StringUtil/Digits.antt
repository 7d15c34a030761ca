-- ===== src/StringUtil/Digits.antt =====
-- Which characters escape_c_literal of include/angelsea/detail/stringutil.hpp writes.
use angelsea.Common.{
  ℕ, ◌<◌, Bool, true, false, ◌≡◌, refl, ◌&&◌, List, [], ◌∷◌, ◌==◌, ==_iff, leb, inl, inr, or-cases,
  if◌then◌else◌, elem, All, All-append, arith,
}
use angelsea.StringUtil.Escape.{
  legal_chars, is_alpha_numerical, is_legal, escape_char, escape_c_literal,
}
use angelsea.StringUtil.Forms.{TwoDigits, digit-legal}

-- A character that shows.
abbrev pub IsPrintable : ℕ → Type 0
IsPrintable c = (leb 32 c && leb c 126) ≡ true

elem-All : (P : ℕ → Type 0) (c : ℕ) (l : List ℕ) → All P l → elem c l ≡ true → P c
elem-All P c [] h e = absurd (cc e)
elem-All P c (x ∷ l) h e = elim (or-cases (x == c) (elem c l) e) [
  | inl q ↦ rw (← (==_iff x c).0 q) h.0
  | inr q ↦ elem-All P c l h.1 q
]

legal_chars-IsPrintable : All IsPrintable legal_chars
legal_chars-IsPrintable = (
  refl,
  (
    refl,
    (
      refl,
      (
        refl,
        (
          refl,
          (
            refl,
            (
              refl,
              (
                refl,
                (
                  refl,
                  (
                    refl,
                    (
                      refl,
                      (
                        refl,
                        (
                          refl,
                          (
                            refl,
                            (
                              refl,
                              (
                                refl,
                                (
                                  refl,
                                  (
                                    refl,
                                    (
                                      refl,
                                      (
                                        refl,
                                        (
                                          refl,
                                          (
                                            refl,
                                            (refl, (refl, (refl, (refl, (refl, (refl, tt)))))),
                                          ),
                                        ),
                                      ),
                                    ),
                                  ),
                                ),
                              ),
                            ),
                          ),
                        ),
                      ),
                    ),
                  ),
                ),
              ),
            ),
          ),
        ),
      ),
    ),
  ),
)

alpha_numerical-IsPrintable : (c : ℕ) → is_alpha_numerical c ≡ true → IsPrintable c
unfolding is_alpha_numerical
alpha_numerical-IsPrintable c h = ground arith

legal-IsPrintable : (c : ℕ) → is_legal c ≡ true → IsPrintable c
unfolding is_legal
legal-IsPrintable c h = elim (or-cases (is_alpha_numerical c) (elem c legal_chars) h) [
  | inl e ↦ alpha_numerical-IsPrintable c e
  | inr e ↦ elem-All IsPrintable c legal_chars legal_chars-IsPrintable e
]

if-All :
    (b : Bool) (x y : List ℕ)
    → (b ≡ true → All IsPrintable x)
    → All IsPrintable y
    → All IsPrintable (if b then x else y)
if-All true x y h k = h refl
if-All false x y h k = k

module _ (hex : ℕ → List ℕ) (two_digits : (c : ℕ) → c < 256 → TwoDigits hex c) where
  escape_char-IsPrintable : (c : ℕ) → c < 256 → All IsPrintable (escape_char hex c)
  unfolding escape_char
  escape_char-IsPrintable c b =
      let (h, l, x, y, eq, p, q, v) = two_digits c b in
      if-All (is_legal c) _ _ (λ e. (legal-IsPrintable c e, tt))
        (if-All (c == 13) _ _ (λ _. (refl, (refl, tt)))
          (if-All (c == 10) _ _ (λ _. (refl, (refl, tt)))
            (if-All (c == 9) _ _ (λ _. (refl, (refl, tt)))
              (if-All (c == b'"') _ _ (λ _. (refl, (refl, tt)))
                (if-All (c == b'\\') _ _ (λ _. (refl, (refl, tt)))
                  (rw eq (
                    refl,
                    (
                      refl,
                      (
                        legal-IsPrintable h (digit-legal h x p),
                        (legal-IsPrintable l (digit-legal l y q), tt),
                      ),
                    ),
                  )))))))

  -- Every character of an escaped text is a printable one of ASCII, whatever the bytes of the text.
  pub escape_c_literal-IsPrintable :
      (s : List ℕ) → All (λ c. c < 256) s → All IsPrintable (escape_c_literal hex s)
  unfolding escape_c_literal
  escape_c_literal-IsPrintable [] b = tt
  escape_c_literal-IsPrintable (c ∷ s) b =
      All-append IsPrintable (escape_char hex c) (escape_c_literal hex s)
        (escape_char-IsPrintable c b.0) (escape_c_literal-IsPrintable s b.1)
