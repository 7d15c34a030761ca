-- ===== src/Source/Reading.antt =====
-- What the calls of c2mir_getc_callback in src/angelsea/detail/mirjit.cpp return.
use mathlib.Core.Path.{subst}
use mathlib.Core.List.{flatten, append-nil}
use angelsea.Common.{
  ltb, negsuc, sym, if-intro, ℕ, zero, suc, ◌+◌, ◌-◌, ◌≤◌, ◌<◌, ◌≡◌, refl, ap, ◌∙◌, ℤ, pos, Bool,
  true, false, List, [], ◌∷◌, ◌++◌, map, leb, length, All, arith, if◌then◌else◌,
}
use angelsea.Source.{
  text_if, SourceConfig, TranspiledBlocks, finalize_context, InputData, block_at, input_data,
  to_int8, Getc, eof, getc_loop, c2mir_getc_callback,
}

-- The text of the blocks behind the i-th.
abbrev behind : ℕ → List (List ℕ) → List ℕ
behind i [] = []
behind zero (b ∷ bits) = flatten bits
behind (suc i) (b ∷ bits) = behind i bits

-- What has not been read.
abbrev left : InputData → List ℕ
left info = info.current_ptr ++ behind info.current_block info.source_bits

abbrev first_int : List ℕ → ℤ
first_int [] = eof
first_int (c ∷ text) = to_int8 c

abbrev rest_of : List ℕ → List ℕ
rest_of [] = []
rest_of (c ∷ text) = text

behind-next :
    (i : ℕ) (bits : List (List ℕ))
    → suc i < length bits
    → behind i bits ≡ block_at (suc i) bits ++ behind (suc i) bits
unfolding flatten
behind-next i [] h = absurd (omega (arith, h))
behind-next zero (b ∷ []) h = absurd (omega (arith, h))
behind-next zero (b ∷ d ∷ bits) h = refl
behind-next (suc i) (b ∷ bits) h = behind-next i bits (omega (arith, h))

behind-last : (i : ℕ) (bits : List (List ℕ)) → length bits ≤ suc i → behind i bits ≡ []
unfolding flatten
behind-last i [] h = refl
behind-last zero (b ∷ []) h = refl
behind-last zero (b ∷ d ∷ bits) h = absurd (omega (arith, h))
behind-last (suc i) (b ∷ bits) h = behind-last i bits (omega (arith, h))

-- A call gives the next character of what is left, if there is one.
abbrev Next : List (List ℕ) → List ℕ → Getc → Type 0
Next bits text r =
    (info : InputData) × (r ≡ Getc.returns (first_int text) info)
    × (left info ≡ rest_of text)
    × (info.source_bits ≡ bits)

abbrev at_block : List (List ℕ) → ℕ → List ℕ → InputData
at_block bits i text = record { source_bits = bits; current_block = i; current_ptr = text }

ended :
    (i : ℕ) (bits : List (List ℕ))
    → behind i bits ≡ []
    → Next bits (behind i bits) (Getc.returns eof (at_block bits i []))
ended i bits e =
    subst (λ t. Next bits t (Getc.returns eof (at_block bits i []))) (sym e)
      (at_block bits i [], refl, e, refl)

leb-true : (a b : ℕ) → leb a b ≡ true → a ≤ b
leb-true a b h = ground arith

not_leb : (a b : ℕ) → leb a b ≡ false → b < a
not_leb a b h = ground arith

getc_loop-Next :
    (fuel i : ℕ) (bits : List (List ℕ)) (text : List ℕ)
    → length bits ≤ fuel + suc i
    → Next bits (left (at_block bits i text)) (getc_loop (suc fuel) (at_block bits i text))
unfolding getc_loop
getc_loop-Next fuel i bits (c ∷ text) h = (at_block bits i text, refl, refl, refl)
getc_loop-Next zero i bits [] h =
    let last = behind-last i bits (omega (arith, h)) in
    if-intro (Next bits (behind i bits)) (leb (length bits - 1) i) _ _ (λ _. ended i bits last)
      (λ more. absurd (omega (arith, h, not_leb (length bits - 1) i more)))
getc_loop-Next (suc fuel) i bits [] h =
    if-intro (Next bits (behind i bits)) (leb (length bits - 1) i) _ _
      (λ b. ended i bits (behind-last i bits (omega (arith, leb-true (length bits - 1) i b))))
      (λ b.
        let next = behind-next i bits (omega (arith, not_leb (length bits - 1) i b)) in
        subst
          (λ t. Next bits t (getc_loop (suc fuel) (at_block bits (suc i) (block_at (suc i) bits))))
          (sym next) (getc_loop-Next fuel (suc i) bits (block_at (suc i) bits) (omega (arith, h))))

c2mir_getc_callback-Next :
    (info : InputData) → Next info.source_bits (left info) (c2mir_getc_callback info)
unfolding c2mir_getc_callback
c2mir_getc_callback-Next info =
    getc_loop-Next (length info.source_bits) info.current_block info.source_bits info.current_ptr
      (omega arith)

-- The ints that so many calls return.
abbrev pub ints : ℕ → InputData → List ℤ
ints zero info = []
ints (suc n) info = elim (c2mir_getc_callback info) [
  | Getc.out_of_fuel ↦ []
  | Getc.returns z info' ↦ z ∷ ints n info'
]

-- The text that the source should be: that of its blocks, in order.
abbrev pub source_text : SourceConfig → TranspiledBlocks → List ℕ
source_text c blocks =
    (if c.copyright_header then c.angelsea_c_header_copyright else [])
    ++ (c.angelsea_c_header
        ++ ((if c.human_readable then c.start_comment else [])
            ++ (blocks.forward_declarations ++ blocks.function_code)))

-- The ints for a text, and EOF for good behind it.
abbrev ints_of : ℕ → List ℕ → List ℤ
ints_of zero text = []
ints_of (suc n) text = first_int text ∷ ints_of n (rest_of text)

ints-left : (n : ℕ) (info : InputData) → ints n info ≡ ints_of n (left info)
ints-left zero info = refl
ints-left (suc n) info =
    let (info', call, rest, _) = c2mir_getc_callback-Next info in
    ap (λ r. elim r [ Getc.out_of_fuel ↦ [] | Getc.returns z next ↦ z ∷ ints n next ]) call
    ∙ ap (λ l. first_int (left info) ∷ l) (ints-left n info' ∙ ap (ints_of n) rest)

to_int8-small : (c : ℕ) → c < 128 → to_int8 c ≡ pos c
to_int8-small c h =
    let small : ltb c 128 ≡ true = ground arith in
    ap (λ b. if b then pos c else negsuc (255 - c)) small

ints_of-text :
    (text : List ℕ)
    → All (λ c. c < 128) text
    → ints_of (suc (length text)) text ≡ map pos text ++ (eof ∷ [])
ints_of-text [] h = refl
ints_of-text (c ∷ text) h =
    ap (λ z. z ∷ ints_of (suc (length text)) text) (to_int8-small c h.0)
    ∙ ap (λ l. pos c ∷ l) (ints_of-text text h.1)

-- The source with its optional texts, before anything has been read.
left-texts :
    (a b : Bool) (t h m f k : List ℕ)
    → left (input_data (text_if a t ++ (h ∷ (text_if b m ++ (f ∷ k ∷ [])))))
      ≡ (if a then t else []) ++ (h ++ ((if b then m else []) ++ (f ++ k)))
unfolding input_data flatten
left-texts true true t h m f k = ap (λ x. t ++ (h ++ (m ++ (f ++ x)))) (append-nil k)
left-texts true false t h m f k = ap (λ x. t ++ (h ++ (f ++ x))) (append-nil k)
left-texts false true t h m f k = ap (λ x. h ++ (m ++ (f ++ x))) (append-nil k)
left-texts false false t h m f k = ap (λ x. h ++ (f ++ x)) (append-nil k)

-- For a source of ASCII characters: the calls of c2mir_getc_callback on what finalize_context returns
-- give the text of the optional copyright, the header, the optional comment, the declarations and
-- the functions, character by character, and then EOF, also where some of them are empty.
pub c2mir_getc_callback-finalize_context :
    (c : SourceConfig) (blocks : TranspiledBlocks)
    → All (λ char. char < 128) (source_text c blocks)
    → ints (suc (length (source_text c blocks))) (input_data (finalize_context c blocks))
      ≡ map pos (source_text c blocks) ++ (eof ∷ [])
unfolding finalize_context
c2mir_getc_callback-finalize_context c blocks ascii =
    let text = source_text c blocks in
    ints-left (suc (length text)) (input_data (finalize_context c blocks))
    ∙ ap (ints_of (suc (length text))) (
        left-texts c.copyright_header c.human_readable c.angelsea_c_header_copyright
          c.angelsea_c_header c.start_comment blocks.forward_declarations blocks.function_code)
    ∙ ints_of-text text ascii
