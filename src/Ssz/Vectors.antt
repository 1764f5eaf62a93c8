-- ===== src/Ssz/Vectors.antt =====
-- A series is read back from its bytes (utils/ssz/src/series.rs), where the offsets fit in 32 bits.
use mathlib.Core.List.{append_assoc}
use shasper.Prelude.{
  ℕ, ◌+◌, ◌%◌, ◌^◌, ◌<◌, ◌≡◌, subst, refl, sym, ap, ◌∙◌, List, [], ◌∷◌, ◌++◌, none, some, map,
  arith, length, length-append, Bytes, le_bytes, add64,
}
use shasper.Results.{ok, ◌>>=◌}
use shasper.Ssz.{Size, slice, decode_uint, uint}
use shasper.Ssz.Basic.{length-le_bytes, slice-append, piece, uint-roundtrip}
use shasper.Ssz.Series.{
  SeriesItem, fixed, variable, part_len, fixed_parts_size, encode_fixed, encode_variable, encode,
  decode_offset, read_fixed, front_or, read_variable, decode_vector,
}

-- The size that an item's type has.
abbrev pub size_of : SeriesItem → Size
size_of (fixed bytes) = some (length bytes)
size_of (variable bytes) = none

-- The lengths of the two parts.
abbrev pub fixed_len : List SeriesItem → ℕ
fixed_len [] = 0
fixed_len (part ∷ parts) = part_len part + fixed_len parts

abbrev pub variable_len : List SeriesItem → ℕ
variable_len [] = 0
variable_len (fixed bytes ∷ parts) = variable_len parts
variable_len (variable bytes ∷ parts) = length bytes + variable_len parts

pub length-encode_fixed :
    (offset : ℕ) (parts : List SeriesItem) → length (encode_fixed offset parts) ≡ fixed_len parts
unfolding encode_fixed
length-encode_fixed offset [] = refl
length-encode_fixed offset (fixed bytes ∷ parts) =
    rw (length-append bytes (encode_fixed offset parts), length-encode_fixed offset parts) refl
length-encode_fixed offset (variable bytes ∷ parts) =
    rw
      (
        length-append (le_bytes 4 (offset % 2 ^ 32))
            (encode_fixed (add64 offset (length bytes)) parts),
        length-encode_fixed (add64 offset (length bytes)) parts,
        length-le_bytes 4 (offset % 2 ^ 32),
      )
      refl

pub length-encode_variable :
    (parts : List SeriesItem) → length (encode_variable parts) ≡ variable_len parts
unfolding encode_variable
length-encode_variable [] = refl
length-encode_variable (fixed bytes ∷ parts) = length-encode_variable parts
length-encode_variable (variable bytes ∷ parts) =
    rw (length-append bytes (encode_variable parts), length-encode_variable parts) refl

pub fixed_parts_size_lem :
    (acc : ℕ) (parts : List SeriesItem)
    → acc + fixed_len parts < 2 ^ 32
    → fixed_parts_size acc parts ≡ acc + fixed_len parts
unfolding fixed_parts_size
fixed_parts_size_lem acc [] h = omega arith
fixed_parts_size_lem acc (part ∷ parts) h =
    let e : add64 acc (part_len part) ≡ acc + part_len part = omega arith in
    rw e (fixed_parts_size_lem (acc + part_len part) parts (omega arith) ∙ omega arith)

-- The offset that `encode` wrote.
pub decode_offset-append :
    (before after : Bytes) (offset : ℕ)
    → length before < 2 ^ 32
    → offset < 2 ^ 32
    → decode_offset (before ++ (le_bytes 4 (offset % 2 ^ 32) ++ after)) (length before) ≡ ok offset
unfolding decode_offset uint
decode_offset-append before after offset h small =
    let low : offset % 2 ^ 32 ≡ offset = omega arith in
    let cut : slice (before ++ (le_bytes 4 offset ++ after)) (length before)
          (add64 (length before) 4)
        ≡ ok (le_bytes 4 offset) =
      slice-append before (le_bytes 4 offset) after (length before) (add64 (length before) 4) refl
        (omega arith) in
    subst
      (λ (o : ℕ).
        (slice (before ++ (le_bytes 4 o ++ after)) (length before) (add64 (length before) 4)
          >>= decode_uint 4)
        ≡ ok offset)
      (sym low) (rw cut ((uint-roundtrip 4 offset [] tt).0 (omega arith)))

-- What the first loop of `decode_vector` returns for a series.
abbrev blank : List SeriesItem → List SeriesItem
blank [] = []
blank (fixed bytes ∷ parts) = fixed bytes ∷ blank parts
blank (variable bytes ∷ parts) = variable [] ∷ blank parts

abbrev pub offsets_of : ℕ → List SeriesItem → List ℕ
offsets_of offset [] = []
offsets_of offset (fixed bytes ∷ parts) = offsets_of offset parts
offsets_of offset (variable bytes ∷ parts) = offset ∷ offsets_of (offset + length bytes) parts

read_fixed-encode_fixed :
    (parts : List SeriesItem) (before after value : Bytes) (offset : ℕ)
    → value ≡ before ++ (encode_fixed offset parts ++ after)
    → length value < 2 ^ 32
    → offset + variable_len parts < 2 ^ 32
    → read_fixed value (length before) (map size_of parts)
      ≡ ok (blank parts, offsets_of offset parts)
unfolding read_fixed encode_fixed
read_fixed-encode_fixed [] before after value offset e short small = refl
read_fixed-encode_fixed (fixed bytes ∷ parts) before after value offset e short small =
    let rest = encode_fixed offset parts in
    let (cut, next, e') =
      piece before bytes (rest ++ after) value
        (e ∙ ap (λ (t : Bytes). before ++ t) (append_assoc bytes rest after)) short in
    let later = read_fixed-encode_fixed parts (before ++ bytes) after value offset e' short small in
    rw (cut, next, later) refl
read_fixed-encode_fixed (variable bytes ∷ parts) before after value offset e short small =
    let here = le_bytes 4 (offset % 2 ^ 32) in
    let rest = encode_fixed (offset + length bytes) parts in
    let moved : add64 offset (length bytes) ≡ offset + length bytes = omega arith in
    let e_1 : value ≡ before ++ ((here ++ rest) ++ after) =
      e ∙ ap (λ (o : ℕ). before ++ ((here ++ encode_fixed o parts) ++ after)) moved in
    let e_2 = e_1 ∙ ap (λ (t : Bytes). before ++ t) (append_assoc here rest after) in
    let (cut, next, e') = piece before here (rest ++ after) value e_2 short in
    let whole : length before < 2 ^ 32 =
      let total : length value ≡ length before + length (here ++ (rest ++ after)) =
        ap length e_2 ∙ length-append before (here ++ (rest ++ after)) in
      omega arith in
    let read : decode_offset value (length before) ≡ ok offset =
      rw e_2 (decode_offset-append before (rest ++ after) offset whole (omega arith)) in
    let later =
      read_fixed-encode_fixed parts (before ++ here) after value (offset + length bytes) e' short
        (omega arith) in
    rw (read, next, later) refl

pub front_or-offsets_of :
    (parts : List SeriesItem) (offset end : ℕ)
    → end ≡ offset + variable_len parts
    → front_or (offsets_of offset parts) end ≡ offset
front_or-offsets_of [] offset end e = omega arith
front_or-offsets_of (fixed bytes ∷ parts) offset end e = front_or-offsets_of parts offset end e
front_or-offsets_of (variable bytes ∷ parts) offset end e = refl

read_variable-encode_variable :
    (parts : List SeriesItem) (before value : Bytes)
    → value ≡ before ++ encode_variable parts
    → length value < 2 ^ 32
    → read_variable value (blank parts) (offsets_of (length before) parts) ≡ ok parts
unfolding read_variable encode_variable
read_variable-encode_variable [] before value e short = refl
read_variable-encode_variable (fixed bytes ∷ parts) before value e short =
    rw (read_variable-encode_variable parts before value e short) refl
read_variable-encode_variable (variable bytes ∷ parts) before value e short =
    let (cut, next, e') = piece before bytes (encode_variable parts) value e short in
    let whole : length value ≡ length (before ++ bytes) + variable_len parts =
      ap length e'
      ∙ length-append (before ++ bytes) (encode_variable parts)
      ∙ ap (λ (n : ℕ). length (before ++ bytes) + n) (length-encode_variable parts) in
    let moved : length before + length bytes ≡ length (before ++ bytes) =
      sym (length-append before bytes) in
    let end : front_or (offsets_of (length (before ++ bytes)) parts) (length value)
        ≡ length (before ++ bytes) =
      front_or-offsets_of parts (length (before ++ bytes)) (length value) whole in
    let cut' : slice value (length before) (length (before ++ bytes)) ≡ ok bytes =
      subst (λ (to : ℕ). slice value (length before) to ≡ ok bytes) next cut in
    let later = read_variable-encode_variable parts (before ++ bytes) value e' short in
    rw (moved, end, cut', later) refl

-- A series whose bytes number less than 2 ^ 32 is read back from them, for the sizes of its items.
pub decode_vector-encode :
    (parts : List SeriesItem)
    → fixed_len parts + variable_len parts < 2 ^ 32
    → decode_vector (encode parts) (map size_of parts) ≡ ok parts
unfolding decode_vector encode
decode_vector-encode parts small =
    let start = fixed_len parts in
    let front = encode_fixed start parts in
    let value = front ++ encode_variable parts in
    let size : fixed_parts_size 0 parts ≡ start =
      fixed_parts_size_lem 0 parts (omega arith) ∙ omega arith in
    let short : length value < 2 ^ 32 =
      rw
        (
          length-append front (encode_variable parts),
          length-encode_fixed start parts,
          length-encode_variable parts,
        )
        small in
    let read =
      read_fixed-encode_fixed parts [] (encode_variable parts) value start refl short small in
    let filled = read_variable-encode_variable parts front value refl short in
    let placed : offsets_of (length front) parts ≡ offsets_of start parts =
      ap (λ (n : ℕ). offsets_of n parts) (length-encode_fixed start parts) in
    rw (size, read)
      (subst (λ (os : List ℕ). read_variable value (blank parts) os ≡ ok parts) placed filled)
