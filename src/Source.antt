-- ===== src/Source.antt =====
-- The text that goes from the translator to the C compiler: finalize_context of
-- src/angelsea/detail/bytecode2c.cpp, struct TranspiledCode of include/angelsea/detail/bytecode2c.hpp,
-- and c2mir_getc_callback of src/angelsea/detail/mirjit.cpp. A C string is the list of its bytes in
-- front of the NUL.
use angelsea.Common.{
  ℕ, zero, suc, ◌+◌, ◌-◌, ℤ, pos, negsuc, Bool, Option, none, some, List, [], ◌∷◌, ◌++◌, leb, ltb,
  length, get_elem?, if◌then◌else◌,
}
mod Reading
mod Tests

-- The constant texts are those of the header of the generated code.
pub record SourceConfig : Type 0 where
  pub copyright_header : Bool
  pub human_readable : Bool
  pub angelsea_c_header_copyright : List ℕ
  pub angelsea_c_header : List ℕ
  pub start_comment : List ℕ

-- The code blocks of the module state.
pub record TranspiledBlocks : Type 0 where
  pub forward_declarations : List ℕ
  pub function_code : List ℕ

abbrev pub text_if : Bool → List ℕ → List (List ℕ)
text_if b t = if b then t ∷ [] else []

-- `source_bits` of what finalize_context returns.
unfoldable pub finalize_context : SourceConfig → TranspiledBlocks → List (List ℕ)
finalize_context c blocks =
    text_if c.copyright_header c.angelsea_c_header_copyright
    ++ (c.angelsea_c_header
        ∷ (text_if c.human_readable c.start_comment
            ++ (blocks.forward_declarations ∷ blocks.function_code ∷ [])))

-- Where the compiler is in the source: the block, and what is left of it.
pub record InputData : Type 0 where
  pub source_bits : List (List ℕ)
  pub current_block : ℕ
  pub current_ptr : List ℕ

abbrev pub block_at : ℕ → List (List ℕ) → List ℕ
block_at i bits = elim (get_elem? bits i) [ none ↦ [] | some block ↦ block ]

unfoldable pub input_data : List (List ℕ) → InputData
input_data bits = record { source_bits = bits; current_block = 0; current_ptr = block_at 0 bits }

-- `std::int8_t c`, returned as an int.
abbrev pub to_int8 : ℕ → ℤ
to_int8 c = if ltb c 128 then pos c else negsuc (255 - c)

-- A call of the callback: the int that it returns and its state, or no end on the fuel.
pub data Getc : Type 0 where
  returns : ℤ → InputData → Getc
  out_of_fuel : Getc

abbrev pub eof : ℤ
eof = negsuc 0

abbrev next_block : InputData → InputData
next_block info = record info {
  current_block = suc info.current_block;
  current_ptr = block_at (suc info.current_block) info.source_bits;
}

-- The loop of the callback over blocks that are at their end.
unfoldable pub getc_loop : ℕ → InputData → Getc
getc_loop zero info = Getc.out_of_fuel
getc_loop (suc fuel) info =
    let rest = getc_loop fuel (next_block info) in
    elim info.current_ptr [
      | [] ↦
          if leb (length info.source_bits - 1) info.current_block
          then Getc.returns eof info
          else rest
      | c ∷ chars ↦ Getc.returns (to_int8 c) (record info { current_ptr = chars })
    ]

-- The callback goes through as many blocks as there are at most.
unfoldable pub c2mir_getc_callback : InputData → Getc
c2mir_getc_callback info = getc_loop (suc (length info.source_bits)) info
