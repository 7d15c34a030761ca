-- ===== src/StringUtil/Tests.antt =====
-- Texts with a quote, a line's end and a byte that is written in hexadecimal.
use native.Mathlib.Omega.{arith}
use angelsea.Common.{
  inl, inr, ◌-◌, ℕ, ◌+◌, ◌/◌, ◌%◌, ◌<◌, ◌≡◌, ◌≢◌, refl, some, List, [], ◌∷◌, ltb, if◌then◌else◌,
  All,
}
use angelsea.StringUtil.Escape.{is_alpha_numerical, is_legal, escape_char, escape_c_literal}
use angelsea.StringUtil.Literal.{hex_value, trigraph, replace_trigraphs, read_literal}
use angelsea.StringUtil.Forms.{TwoDigits}
use angelsea.StringUtil.Trigraphs.{NoTrigraphs}
use angelsea.StringUtil.Glued.{escape_c_literal-Glued}
use angelsea.StringUtil.RoundTrip.{read_literal-escape_c_literal}
use angelsea.StringUtil.Digits.{IsPrintable, escape_c_literal-IsPrintable}

abbrev digit : ℕ → ℕ
digit n = if ltb n 10 then b'0' + n else b'a' + n - 10

-- The two hexadecimal digits of a byte.
abbrev hex : ℕ → List ℕ
hex c = digit (c / 16) ∷ digit (c % 16) ∷ []

digit-value : (n : ℕ) → n < 16 → hex_value (digit n) ≡ some n
unfolding hex_value
digit-value n h = ground arith

hex-TwoDigits : (c : ℕ) → c < 256 → TwoDigits hex c
hex-TwoDigits c h = (
  digit (c / 16),
  digit (c % 16),
  c / 16,
  c % 16,
  refl,
  digit-value (c / 16) (omega arith),
  digit-value (c % 16) (omega arith),
  omega arith,
)

-- `é"` and a line's end, in UTF-8.
abbrev text : List ℕ
text = 0xc3 ∷ 0xa9 ∷ 34 ∷ 10 ∷ b'o' ∷ []

text-NoTrigraphs : NoTrigraphs text
text-NoTrigraphs = (
  λ e _. absurd (omega (arith, e)),
  (λ e _. absurd (omega (arith, e)), (λ e _. absurd (omega (arith, e)), (tt, (tt, tt)))),
)

-- A trigraph is not read back.
trigraph_read :
    read_literal (escape_c_literal hex (b'a' ∷ b'?' ∷ b'?' ∷ b'!' ∷ [])) ≡ some (b'a' ∷ b'|' ∷ [])
unfolding escape_c_literal escape_char is_legal is_alpha_numerical replace_trigraphs trigraph
trigraph_read = refl

round_trip_example : read_literal (escape_c_literal hex text) ≡ some text
unfolding hex_value
round_trip_example =
    read_literal-escape_c_literal hex hex-TwoDigits text
      (omega arith, (omega arith, (omega arith, (omega arith, (omega arith, tt)))))
      ((λ _. refl), ((λ _. refl), ((λ _. refl), ((λ _. refl), tt)))) text-NoTrigraphs

ascii_example : All IsPrintable (escape_c_literal hex text)
ascii_example =
    escape_c_literal-IsPrintable hex hex-TwoDigits text
      (omega arith, (omega arith, (omega arith, (omega arith, (omega arith, tt)))))

-- A byte of UTF-8, then the letter b, inside a text.
abbrev glued : List ℕ
glued = b'o' ∷ 0xa9 ∷ b'b' ∷ b'!' ∷ []

glued_example : read_literal (escape_c_literal hex glued) ≢ some glued
unfolding is_legal is_alpha_numerical hex_value
glued_example =
    escape_c_literal-Glued hex hex-TwoDigits glued
      (omega arith, (omega arith, (omega arith, (omega arith, tt))))
      (λ e _. absurd (omega (arith, e)), (λ e _. absurd (omega (arith, e)), (tt, (tt, tt))))
      (inr (inl (refl, 11, refl)))
