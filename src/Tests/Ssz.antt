-- ===== src/Tests/Ssz.antt =====
-- The serialisation on concrete inputs.
use shasper.Prelude.{
  ◌⊎◌, ℕ, ◌<◌, ◌^◌, ◌≡◌, ◌≢◌, refl, arith, Bool, true, false, List, [], ◌∷◌, some, map,
}
use shasper.Results.{ok, panic, diverge}
use shasper.Ssz.{uint}
use shasper.Ssz.Series
use shasper.Ssz.Series.{SeriesItem, fixed, variable}
use shasper.Ssz.Lists.{encode_list, decode_list, vec, item_of}
use shasper.Ssz.Bits.{bitlist, decode_bitlist, bitlist_len}
use shasper.Ssz.Vectors.{decode_vector-encode, size_of}
use shasper.Ssz.Listed.{uint-Lawful, vec-Lawful, decode_list-encode_list}
use shasper.Ssz.BitListTrip.{bitlist_roundtrip}
use shasper.Ssz.Ending.{decode_list_ends}

abbrev parts : List SeriesItem
parts =
    fixed (1 ∷ 2 ∷ [])
    ∷ variable (7 ∷ [])
    ∷ fixed (3 ∷ [])
    ∷ variable []
    ∷ variable (8 ∷ 9 ∷ [])
    ∷ []

decode_vector-encode_example :
    Series.decode_vector (Series.encode parts) (map size_of parts) ≡ ok parts
decode_vector-encode_example = decode_vector-encode parts (omega arith)

-- Lists of lists of `u16`, where the inner ones are of variable size.
abbrev rows : List (List ℕ)
rows = (1 ∷ 513 ∷ []) ∷ [] ∷ (65535 ∷ []) ∷ []

decode_list-encode_list_example :
    decode_list (vec (uint 2)) (encode_list (vec (uint 2)) rows) ≡ ok rows
unfolding uint vec encode_list item_of
decode_list-encode_list_example =
    decode_list-encode_list (vec (uint 2)) _
      (vec-Lawful (uint 2) (λ v. v < 256 ^ 2) (uint-Lawful 2 (omega arith) (omega arith))) rows
      (
        ((omega arith, (omega arith, tt)), omega arith),
        ((tt, omega arith), (((omega arith, tt), omega arith), tt)),
      )
      (omega arith)

abbrev bits : List Bool
bits = true ∷ false ∷ true ∷ true ∷ false ∷ false ∷ true ∷ false ∷ true ∷ []

bitlist_roundtrip_example : bitlist.decode (bitlist.encode bits) ≡ ok bits
bitlist_roundtrip_example = bitlist_roundtrip bits (omega arith)

abbrev three : ℕ
three = 3

decode_list_ends_example :
    ((0 < 3) × (Series.decode_list (1 ∷ 2 ∷ 3 ∷ 4 ∷ []) (some 3) ≢ diverge))
    ⊎ ((three ≡ 0) × ((rounds : ℕ) → Series.read_items rounds (1 ∷ 2 ∷ 3 ∷ 4 ∷ []) 3 0 ≡ diverge))
decode_list_ends_example = decode_list_ends (1 ∷ 2 ∷ 3 ∷ 4 ∷ []) 3 (omega arith) (omega arith)

-- A list of bits is never empty of bytes, but the decoder reads the last one before it checks.
no_bytes : decode_bitlist [] ≡ panic
unfolding decode_bitlist bitlist_len
no_bytes = refl

-- The byte behind the last whole item is dropped without an error.
rest_dropped : Series.decode_list (1 ∷ 2 ∷ 3 ∷ []) (some 2) ≡ ok (fixed (1 ∷ 2 ∷ []) ∷ [])
unfolding Series.decode_list
rest_dropped = refl
