-- ===== src/StringUtil/Escape.antt =====
-- escape_c_literal of include/angelsea/detail/stringutil.hpp. A `char` is its byte, and a
-- character that the source compares as a signed `char` below 0 is a byte from 128 on.
use angelsea.Common.{ℕ, Bool, ◌&&◌, ◌||◌, List, [], ◌∷◌, ◌++◌, ◌==◌, leb, if◌then◌else◌, elem}

unfoldable pub is_alpha_numerical : ℕ → Bool
is_alpha_numerical c =
    leb b'a' c && leb c b'z' || leb b'A' c && leb c b'Z' || leb b'0' c && leb c b'9'

-- "!#%&'()*+,-./:;<=>?[]^_{|}~ "
abbrev pub legal_chars : List ℕ
legal_chars =
    33 ∷ 35 ∷ 37 ∷ 38 ∷ 39 ∷ 40 ∷ 41 ∷ 42 ∷ 43 ∷ 44 ∷ 45 ∷ 46 ∷ 47 ∷ 58 ∷ 59 ∷ 60 ∷ 61 ∷ 62 ∷ 63
    ∷ 91 ∷ 93 ∷ 94 ∷ 95 ∷ 123 ∷ 124 ∷ 125 ∷ 126 ∷ 32 ∷ []

unfoldable pub is_legal : ℕ → Bool
is_legal c = is_alpha_numerical c || elem c legal_chars

-- `hex` is `{:02x}` of the format library.
module _ (hex : ℕ → List ℕ) where
  unfoldable pub escape_char : ℕ → List ℕ
  escape_char c =
      if is_legal c
      then c ∷ []
      else if c == 13
      then b'\\' ∷ b'r' ∷ []
      else if c == 10
      then b'\\' ∷ b'n' ∷ []
      else if c == 9
      then b'\\' ∷ b't' ∷ []
      else if c == b'"'
      then b'\\' ∷ b'"' ∷ []
      else if c == b'\\'
      then b'\\' ∷ b'\\' ∷ []
      else b'\\' ∷ b'x' ∷ hex c

  unfoldable pub escape_c_literal : List ℕ → List ℕ
  escape_c_literal [] = []
  escape_c_literal (c ∷ str) = escape_char c ++ escape_c_literal str
