-- ===== src/FnConfig/Tests.antt =====
-- Metadata of a function with a repeated and an unknown entry.
use angelsea.Common.{true, false, ◌≡◌, String, List, [], ◌∷◌}
use angelsea.FnConfig.{default_config, parse_metadata, parse_metadata-mentions}

abbrev entries : List String
entries = "dump_c" ∷ "editor" ∷ "disable_jit" ∷ "dump_c" ∷ []

metadata_example :
    ((parse_metadata default_config entries).ignore_perf_warnings ≡ false)
    × ((parse_metadata default_config entries).disable_jit ≡ true)
    × ((parse_metadata default_config entries).dump_c ≡ true)
metadata_example = parse_metadata-mentions default_config entries
