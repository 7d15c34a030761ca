-- ===== src/StringUtil/Glued.antt =====
-- A hexadecimal digit behind a character that escape_c_literal of include/angelsea/detail/stringutil.hpp
-- writes in hexadecimal.
use angelsea.Common.{
  ℕ, ◌+◌, ◌*◌, ◌≤◌, ◌<◌, true, ◌≡◌, ◌≢◌, refl, sym, ap, ◌∙◌, none, some, some-inj, List, [], ◌∷◌,
  ◌++◌, ◌⊎◌, inl, inr, All, Bool-cases, Option-cases, length, length-append, ltb, arith,
}
use angelsea.StringUtil.Escape.{is_legal, escape_char, escape_c_literal}
use angelsea.StringUtil.Literal.{
  hex_value, Reader, step, finish, read_from, read_chars, read_literal,
}
use angelsea.StringUtil.Forms.{
  is_coded, TwoDigits, escape_char-Form, legal-plain, legal-escape, coded-escape, digit-legal,
}
use angelsea.StringUtil.Trigraphs.{NoTrigraphs, replace_trigraphs-escape_c_literal}

-- Somewhere in the text.
abbrev pub Glued : List ℕ → Type 0
Glued [] = ⊥
Glued (c ∷ []) = ⊥
Glued (c ∷ d ∷ s) = ((is_coded c ≡ true) × (v : ℕ) × (hex_value d ≡ some v)) ⊎ Glued (d ∷ s)

-- How many characters have been read, the one of an unfinished escape sequence included.
abbrev size : Reader → ℕ
size (Reader.plain out) = length out
size (Reader.escape out) = length out + 1
size (Reader.hex_start out) = length out + 1
size (Reader.hex n out) = length out + 1

-- At the end of a character.
abbrev Resting : Reader → Type 0
Resting (Reader.plain out) = Unit
Resting (Reader.hex n out) = Unit
Resting _ = ⊥

-- A rest of the text is read from a reader that has got one character further at most.
abbrev Goes : ℕ → List ℕ → List ℕ → Type 0
Goes n t out = (r : Reader) × Resting r × (size r ≤ n) × (read_from (some r) t ≡ some out)

finish-size : (r : Reader) (out : List ℕ) → Resting r → finish r ≡ some out → length out ≤ size r
finish-size (Reader.plain w) out g e = let q = some-inj w out e in rw (← q) (omega arith)
finish-size (Reader.hex n w) out g e = elim (Bool-cases (ltb n 256)) [
  | inl f ↦
      let q : w ++ (n ∷ []) ≡ out = cc (rw f at e) in
      rw (← q) (omega (arith, length-append w (n ∷ [])))
  | inr f ↦ absurd (cc (rw f at e))
]
finish-size (Reader.escape w) out g e = elim g [ ]
finish-size (Reader.hex_start w) out g e = elim g [ ]

-- A reader at the end of a character takes a backslash, or nothing at all.
step-backslash :
    (r : Reader)
    → Resting r
    → (step r b'\\' ≡ none)
      ⊎ ((w : List ℕ) × (step r b'\\' ≡ some (Reader.escape w)) × (length w ≤ size r))
unfolding hex_value
step-backslash (Reader.plain w) g = inr (w, refl, omega arith)
step-backslash (Reader.hex n w) g = elim (Bool-cases (ltb n 256)) [
  | inl f ↦ inr (w ++ (n ∷ []), rw f refl, omega (arith, length-append w (n ∷ [])))
  | inr f ↦ inl (rw f refl)
]
step-backslash (Reader.escape w) g = elim g [ ]
step-backslash (Reader.hex_start w) g = elim g [ ]

-- It takes a legal character as itself or as a digit, or does not.
step-legal :
    (r : Reader) (c : ℕ)
    → Resting r
    → is_legal c ≡ true
    → (step r c ≡ none) ⊎ ((q : Reader) × Resting q × (size q ≤ size r + 1) × (step r c ≡ some q))
step-legal (Reader.plain w) c g l =
    inr
      (Reader.plain (w ++ (c ∷ [])), tt, omega (arith, length-append w (c ∷ [])), legal-plain c w l)
step-legal (Reader.hex n w) c g l = elim (Option-cases (hex_value c)) [
  | inr (v, e) ↦ inr (Reader.hex (16 * n + v) w, tt, omega arith, rw (step, e) refl)
  | inl e ↦ elim (Bool-cases (ltb n 256)) [
    | inl f ↦
        let u = w ++ (n ∷ []) in
        inr (
          Reader.plain (u ++ (c ∷ [])),
          tt,
          omega (arith, length-append w (n ∷ []), length-append u (c ∷ [])),
          rw (step, e, f) (legal-plain c u l),
        )
    | inr f ↦ inl (rw (step, e, f) refl)
  ]
]
step-legal (Reader.escape w) c g l = elim g [ ]
step-legal (Reader.hex_start w) c g l = elim g [ ]

module _ (hex : ℕ → List ℕ) (two_digits : (c : ℕ) → c < 256 → TwoDigits hex c) where
  -- A character in hexadecimal leaves the reader in its escape sequence.
  read-coded-char :
      (c : ℕ) (t : List ℕ) (r : Reader) (out : List ℕ)
      → c < 256
      → Resting r
      → read_from (some r) (b'\\' ∷ b'x' ∷ (hex c ++ t)) ≡ some out
      → (w : List ℕ) × (length w ≤ size r) × (read_from (some (Reader.hex c w)) t ≡ some out)
  read-coded-char c t r out b g h = elim (step-backslash r g) [
    | inl e ↦ absurd (cc (sym (ap (λ x. read_from x (b'x' ∷ (hex c ++ t))) e) ∙ h))
    | inr (w, e, le) ↦
        let (d, l, x, y, eq, p, q, v) = two_digits c b in
        let read : read_from (some (Reader.escape w)) (b'x' ∷ (hex c ++ t))
            ≡ read_from (some (Reader.hex c w)) t =
          rw (read_from, eq, p, q, v) refl in
        (w, le, sym read ∙ sym (ap (λ x. read_from x (b'x' ∷ (hex c ++ t))) e) ∙ h)
  ]

  read-char :
      (c : ℕ) (t : List ℕ) (r : Reader) (out : List ℕ)
      → c < 256
      → Resting r
      → read_from (some r) (escape_char hex c ++ t) ≡ some out
      → Goes (size r + 1) t out
  read-char c t r out b g h = elim (escape_char-Form hex c) [
    | inl (l, q) ↦
        let got : read_from (step r c) t ≡ some out =
          sym (ap (λ e. read_from (some r) (e ++ t)) q) ∙ h in
        elim (step-legal r c g l) [
          | inl e ↦ absurd (cc (sym (ap (λ x. read_from x t) e) ∙ got))
          | inr (p, rests, le, e) ↦ (p, rests, le, sym (ap (λ x. read_from x t) e) ∙ got)
        ]
    | inr (inl (x, q, k)) ↦
        let got : read_from (step r b'\\') (x ∷ t) ≡ some out =
          sym (ap (λ e. read_from (some r) (e ++ t)) q) ∙ h in
        elim (step-backslash r g) [
          | inl e ↦ absurd (cc (sym (ap (λ o. read_from o (x ∷ t)) e) ∙ got))
          | inr (w, e, le) ↦ (
            Reader.plain (w ++ (c ∷ [])),
            tt,
            omega (arith, le, length-append w (c ∷ [])),
            sym (ap (λ o. read_from o t) (k w)) ∙ sym (ap (λ o. read_from o (x ∷ t)) e) ∙ got,
          )
        ]
    | inr (inr (k, q)) ↦
        let (w, le, rest) =
          read-coded-char c t r out b g (sym (ap (λ e. read_from (some r) (e ++ t)) q) ∙ h) in
        (Reader.hex c w, tt, omega (arith, le), rest)
  ]

  -- As many characters are read as the text has, at most.
  read-length :
      (s : List ℕ) (r : Reader) (out : List ℕ)
      → All (λ c. c < 256) s
      → Resting r
      → read_from (some r) (escape_c_literal hex s) ≡ some out
      → length out ≤ size r + length s
  unfolding escape_c_literal
  read-length [] r out b g h = omega (arith, finish-size r out g h)
  read-length (c ∷ s) r out b g h =
      let (q, rests, le, rest) = read-char c (escape_c_literal hex s) r out b.0 g h in
      omega (arith, le, read-length s q out b.1 rests rest)

  -- And fewer where a digit is taken for one of an escape sequence.
  read-Glued :
      (s : List ℕ) (r : Reader) (out : List ℕ)
      → All (λ c. c < 256) s
      → Resting r
      → Glued s
      → read_from (some r) (escape_c_literal hex s) ≡ some out
      → length out + 1 ≤ size r + length s
  unfolding escape_c_literal
  read-Glued [] r out b g k h = absurd k
  read-Glued (c ∷ []) r out b g k h = absurd k
  read-Glued (c ∷ d ∷ s) r out b g (inr k) h =
      let (q, rests, le, rest) = read-char c (escape_c_literal hex (d ∷ s)) r out b.0 g h in
      omega (arith, le, read-Glued (d ∷ s) q out b.1 rests k rest)
  read-Glued (c ∷ d ∷ s) r out b g (inl (coded, v, e)) h =
      let t = escape_c_literal hex s in
      let (w, le, rest) = read-coded-char c (escape_char hex d ++ t) r out b.0 g (
        sym
          (ap (λ x. read_from (some r) (x ++ (escape_char hex d ++ t))) (coded-escape hex c coded))
        ∙ h) in
      let step_digit : step (Reader.hex c w) d ≡ some (Reader.hex (16 * c + v) w) =
        rw (step, e) refl in
      let digit : read_from (some (Reader.hex (16 * c + v) w)) t ≡ some out =
        sym (
          ap (λ x. read_from (some (Reader.hex c w)) (x ++ t))
            (legal-escape hex d (digit-legal d v e))
          ∙ ap (λ o. read_from o t) step_digit)
        ∙ rest in
      omega (arith, le, read-length s (Reader.hex (16 * c + v) w) out b.1.1 tt digit)

  -- A text of which a character is written in hexadecimal and has a hexadecimal digit behind it,
  -- anywhere, is not read back, if it has no trigraph: C takes the digit as one of the escape
  -- sequence.
  pub escape_c_literal-Glued :
      (s : List ℕ)
      → All (λ c. c < 256) s
      → NoTrigraphs s
      → Glued s
      → read_literal (escape_c_literal hex s) ≢ some s
  escape_c_literal-Glued s b n k h =
      let chars : read_chars (escape_c_literal hex s) ≡ some s =
        sym (ap read_chars (replace_trigraphs-escape_c_literal hex two_digits s b n)) ∙ h in
      absurd (omega (arith, read-Glued s (Reader.plain []) s b tt k chars))
