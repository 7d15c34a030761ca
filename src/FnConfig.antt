-- ===== src/FnConfig.antt =====
-- The configuration of a function by its metadata: include/angelsea/fnconfig.hpp and
-- src/angelsea/fnconfig.cpp.
mod Tests
use text.Mathlib.Text.{◌==◌}
use text.Mathlib.TextEquality.{eq_iff}
use mathlib.Core.List.{foldl}
use angelsea.Common.{
  Bool, true, false, ◌≡◌, refl, ◌∙◌, ◌||◌, String, List, [], ◌∷◌, inl, inr, Bool-cases,
  if◌then◌else◌, arith,
}

pub record FnConfig : Type 0 where
  pub ignore_perf_warnings : Bool
  pub disable_jit : Bool
  pub dump_c : Bool

-- The default values of the fields.
abbrev pub default_config : FnConfig
default_config = record { ignore_perf_warnings = false; disable_jit = false; dump_c = false }

unfoldable pub parse_function_metadata : FnConfig → String → FnConfig
parse_function_metadata config metadata =
    if metadata == "ignore_perf_warnings"
    then record config { ignore_perf_warnings = true }
    else if metadata == "disable_jit"
    then record config { disable_jit = true }
    else if metadata == "dump_c"
    then record config { dump_c = true }
    else config

-- One call for each metadata entry of a function.
abbrev pub parse_metadata : FnConfig → List String → FnConfig
parse_metadata = foldl parse_function_metadata

abbrev pub mentions : String → List String → Bool
mentions name [] = false
mentions name (entry ∷ l) = entry == name || mentions name l

parse_one :
    (config : FnConfig) (entry : String)
    → let c = parse_function_metadata config entry in
      (c.ignore_perf_warnings ≡ (config.ignore_perf_warnings || entry == "ignore_perf_warnings"))
      × (c.disable_jit ≡ (config.disable_jit || entry == "disable_jit"))
      × (c.dump_c ≡ (config.dump_c || entry == "dump_c"))
unfolding parse_function_metadata
parse_one config entry = elim (Bool-cases (entry == "ignore_perf_warnings")) [
  | inl e ↦ rw ((eq_iff entry "ignore_perf_warnings").0 e) (ground arith)
  | inr n ↦ elim (Bool-cases (entry == "disable_jit")) [
    | inl e ↦ rw ((eq_iff entry "disable_jit").0 e) (ground arith)
    | inr m ↦ elim (Bool-cases (entry == "dump_c")) [
      | inl e ↦ rw ((eq_iff entry "dump_c").0 e) (ground arith)
      | inr k ↦ rw (n, m, k) (ground arith)
    ]
  ]
]

-- Each of the three options is set, after all entries of the metadata have been parsed, if it was set
-- before or an entry names it: the order, repeated and unknown entries do not matter.
pub parse_metadata-mentions :
    (config : FnConfig) (l : List String)
    → let c = parse_metadata config l in
      (c.ignore_perf_warnings ≡ (config.ignore_perf_warnings || mentions "ignore_perf_warnings" l))
      × (c.disable_jit ≡ (config.disable_jit || mentions "disable_jit" l))
      × (c.dump_c ≡ (config.dump_c || mentions "dump_c" l))
parse_metadata-mentions config [] = ground arith
parse_metadata-mentions config (entry ∷ l) =
    let (p, q, r) = parse_one config entry in
    let (x, y, z) = parse_metadata-mentions (parse_function_metadata config entry) l in
    ground (arith, p, q, r, x, y, z)
