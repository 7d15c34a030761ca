-- ===== src/StringUtil/Literal.antt =====
-- How C reads the inside of a string literal: trigraphs first, then a character at a time, with the escape sequences
-- that the escaping uses. A hexadecimal escape takes all hexadecimal digits behind it.
use angelsea.Common.{
  ℕ, ◌+◌, ◌*◌, ◌-◌, ◌&&◌, ◌||◌, Option, none, some, List, [], ◌∷◌, ◌++◌, ◌==◌, leb, ltb,
  if◌then◌else◌,
}

unfoldable pub hex_value : ℕ → Option ℕ
hex_value c =
    if leb b'0' c && leb c b'9'
    then some (c - b'0')
    else if leb b'a' c && leb c b'f'
    then some (c - b'a' + 10)
    else if leb b'A' c && leb c b'F'
    then some (c - b'A' + 10)
    else none

-- The text read so far, and where in an escape sequence the reader stands.
pub data Reader : Type 0 where
  plain escape hex_start : List ℕ → Reader
  hex : ℕ → List ℕ → Reader

-- A quote or a line's end ends the literal: the rest is not part of it.
abbrev pub step_plain : List ℕ → ℕ → Option Reader
step_plain out c =
    if c == b'"' || c == 10
    then none
    else if c == b'\\'
    then some (Reader.escape out)
    else some (Reader.plain (out ++ (c ∷ [])))

abbrev pub step : Reader → ℕ → Option Reader
step (Reader.plain out) c = step_plain out c
step (Reader.escape out) c =
    if c == b'r'
    then some (Reader.plain (out ++ (13 ∷ [])))
    else if c == b'n'
    then some (Reader.plain (out ++ (10 ∷ [])))
    else if c == b't'
    then some (Reader.plain (out ++ (9 ∷ [])))
    else if c == b'"' || c == b'\\'
    then some (Reader.plain (out ++ (c ∷ [])))
    else if c == b'x'
    then some (Reader.hex_start out)
    else none
step (Reader.hex_start out) c = elim (hex_value c) [
  | none ↦ none
  | some v ↦ some (Reader.hex v out)
]
step (Reader.hex n out) c = elim (hex_value c) [
  | none ↦ if ltb n 256 then step_plain (out ++ (n ∷ [])) c else none
  | some v ↦ some (Reader.hex (16 * n + v) out)
]

-- A character of a hexadecimal escape must fit in a byte.
abbrev pub finish : Reader → Option (List ℕ)
finish (Reader.plain out) = some out
finish (Reader.hex n out) = if ltb n 256 then some (out ++ (n ∷ [])) else none
finish _ = none

abbrev pub read_from : Option Reader → List ℕ → Option (List ℕ)
read_from none s = none
read_from (some r) [] = finish r
read_from (some r) (c ∷ s) = read_from (step r c) s

abbrev pub read_chars : List ℕ → Option (List ℕ)
read_chars = read_from (some (Reader.plain []))

-- What `??` and the character stand for.
unfoldable pub trigraph : ℕ → Option ℕ
trigraph c =
    if c == b'='
    then some b'#'
    else if c == b'/'
    then some b'\\'
    else if c == 39
    then some b'^'
    else if c == b'('
    then some b'['
    else if c == b')'
    then some b']'
    else if c == b'!'
    then some b'|'
    else if c == b'<'
    then some b'{'
    else if c == b'>'
    then some b'}'
    else if c == b'-'
    then some b'~'
    else none

-- The first phase of translation.
unfoldable pub replace_trigraphs : List ℕ → List ℕ
replace_trigraphs [] = []
replace_trigraphs (a ∷ []) = a ∷ []
replace_trigraphs (a ∷ b ∷ []) = a ∷ b ∷ []
replace_trigraphs (a ∷ b ∷ c ∷ rest) =
    let replaced = replace_trigraphs rest in
    let kept = a ∷ replace_trigraphs (b ∷ c ∷ rest) in
    if a == b'?' && b == b'?'
    then elim (trigraph c) [ none ↦ kept | some d ↦ d ∷ replaced ]
    else kept

abbrev pub read_literal : List ℕ → Option (List ℕ)
read_literal s = read_chars (replace_trigraphs s)
