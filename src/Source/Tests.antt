-- ===== src/Source/Tests.antt =====
-- A source with a comment and no declarations.
use angelsea.Common.{◌≡◌, pos, true, false, [], ◌∷◌, arith}
use angelsea.Source.{SourceConfig, TranspiledBlocks, finalize_context, input_data, eof}
use angelsea.Source.Reading.{ints, c2mir_getc_callback-finalize_context}

abbrev source_config : SourceConfig
source_config = record {
  copyright_header = false;
  human_readable = true;
  angelsea_c_header_copyright = 47 ∷ 47 ∷ [];
  angelsea_c_header = 105 ∷ 59 ∷ [];
  start_comment = 10 ∷ [];
}

abbrev blocks : TranspiledBlocks
blocks = record { forward_declarations = []; function_code = 102 ∷ [] }

reading_example :
    ints 5 (input_data (finalize_context source_config blocks))
    ≡ pos 105 ∷ pos 59 ∷ pos 10 ∷ pos 102 ∷ eof ∷ []
reading_example =
    c2mir_getc_callback-finalize_context source_config blocks
      (omega arith, (omega arith, (omega arith, (omega arith, tt))))
