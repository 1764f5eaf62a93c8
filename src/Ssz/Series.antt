-- ===== src/Ssz/Series.antt =====
-- utils/ssz/src/series.rs: items of fixed and of variable size. The variable ones stand behind all the
-- fixed ones, which hold an offset in their place.
use shasper.Prelude.{
  ℕ, zero, suc, ◌%◌, ◌^◌, Bool, true, List, [], ◌∷◌, ◌++◌, Option, none, some, ◌&&◌, if◌then◌else◌,
  leb, length, Bytes, le_bytes, add64,
}
use shasper.Results.{Result, ok, panic, diverge, ◌>>=◌}
use shasper.Ssz.{Error, Size, slice, decode_uint, offset_len}

pub data SeriesItem : Type 0 where
  fixed : Bytes → SeriesItem
  variable : Bytes → SeriesItem

abbrev pub part_len : SeriesItem → ℕ
part_len (fixed bytes) = length bytes
part_len (variable bytes) = offset_len

-- The fold over the lengths of the fixed parts.
unfoldable pub fixed_parts_size : ℕ → List SeriesItem → ℕ
fixed_parts_size acc [] = acc
fixed_parts_size acc (part ∷ parts) = fixed_parts_size (add64 acc (part_len part)) parts

-- The first loop of `encode`: `offset as u32` drops the high bits.
unfoldable pub encode_fixed : ℕ → List SeriesItem → Bytes
encode_fixed offset [] = []
encode_fixed offset (fixed bytes ∷ parts) = bytes ++ encode_fixed offset parts
encode_fixed offset (variable bytes ∷ parts) =
    le_bytes offset_len (offset % 2 ^ 32) ++ encode_fixed (add64 offset (length bytes)) parts

-- The second loop of `encode`.
unfoldable pub encode_variable : List SeriesItem → Bytes
encode_variable [] = []
encode_variable (fixed bytes ∷ parts) = encode_variable parts
encode_variable (variable bytes ∷ parts) = bytes ++ encode_variable parts

unfoldable pub encode : List SeriesItem → Bytes
unfolding fixed_parts_size encode_fixed encode_variable
encode parts = encode_fixed (fixed_parts_size 0 parts) parts ++ encode_variable parts

-- `LengthOffset::decode(&value[pos..(pos + len)])? as usize`
unfoldable pub decode_offset : Bytes → ℕ → Result Error ℕ
unfolding slice decode_uint
decode_offset value pos = slice value pos (add64 pos offset_len) >>= decode_uint offset_len

-- The first loop of `decode_vector`: the items, where the variable ones are empty, and the offsets.
unfoldable pub read_fixed : Bytes → ℕ → List Size → Result Error (List SeriesItem × List ℕ)
unfolding slice decode_offset
read_fixed value pos [] = ok ([], [])
read_fixed value pos (some fixed_len ∷ typs) = do
  bytes ← slice value pos (add64 pos fixed_len)
  (items, offsets) ← read_fixed value (add64 pos fixed_len) typs
  ok (fixed bytes ∷ items, offsets)
read_fixed value pos (none ∷ typs) = do
  offset ← decode_offset value pos
  (items, offsets) ← read_fixed value (add64 pos offset_len) typs
  ok (variable [] ∷ items, offset ∷ offsets)

-- `variable_offsets.front().unwrap_or(value.len())`
abbrev pub front_or : List ℕ → ℕ → ℕ
front_or [] end = end
front_or (offset ∷ offsets) end = offset

-- The second loop of `decode_vector`.
unfoldable pub read_variable : Bytes → List SeriesItem → List ℕ → Result Error (List SeriesItem)
unfolding slice
read_variable value [] offsets = ok []
read_variable value (fixed bytes ∷ items) offsets =
    read_variable value items offsets >>= λ rest. ok (fixed bytes ∷ rest)
read_variable value (variable bytes ∷ items) [] = panic
read_variable value (variable bytes ∷ items) (offset ∷ offsets) = do
  part ← slice value offset (front_or offsets (length value))
  rest ← read_variable value items offsets
  ok (variable (bytes ++ part) ∷ rest)

unfoldable pub decode_vector : Bytes → List Size → Result Error (List SeriesItem)
unfolding read_fixed read_variable
decode_vector value typs =
    read_fixed value 0 typs >>= λ (items, offsets). read_variable value items offsets

-- The loop of `decode_list` over items of one size. A size of zero goes on for ever.
unfoldable pub read_items : ℕ → Bytes → ℕ → ℕ → Result Error (List SeriesItem)
unfolding slice
read_items zero value fixed_len pos = diverge
read_items (suc fuel) value fixed_len pos =
    let rest = read_items fuel value fixed_len (add64 pos fixed_len) in
    if leb (add64 pos fixed_len) (length value)
    then (do bytes ← slice value pos (add64 pos fixed_len); items ← rest; ok (fixed bytes ∷ items))
    else ok []

-- Whether `pos + fixed_len` is within the first offset, where there is one.
abbrev pub within : ℕ → Option ℕ → Bool
within end none = true
within end (some first) = leb end first

-- The front of the queue of offsets, after one is pushed.
abbrev pub front_of : Option ℕ → ℕ → ℕ
front_of none offset = offset
front_of (some first) offset = first

-- The loop of `decode_list` over the offsets, from the first of them on.
unfoldable pub read_offsets : ℕ → Bytes → Option ℕ → ℕ → Result Error (List ℕ)
unfolding decode_offset
read_offsets zero value first pos = diverge
read_offsets (suc fuel) value first pos =
    let end = add64 pos offset_len in
    let rest : ℕ → Result Error (List ℕ) =
      λ offset. read_offsets fuel value (some (front_of first offset)) end in
    if leb end (length value) && within end first
    then (do offset ← decode_offset value pos; offsets ← rest offset; ok (offset ∷ offsets))
    else ok []

-- The last loop of `decode_list`.
unfoldable pub read_parts : Bytes → List ℕ → Result Error (List SeriesItem)
unfolding slice
read_parts value [] = ok []
read_parts value (offset ∷ offsets) = do
  part ← slice value offset (front_or offsets (length value))
  rest ← read_parts value offsets
  ok (variable part ∷ rest)

-- Each round but the last reads at least one byte.
unfoldable pub decode_list : Bytes → Size → Result Error (List SeriesItem)
unfolding read_items read_offsets read_parts
decode_list value (some fixed_len) = read_items (suc (length value)) value fixed_len 0
decode_list value none = read_offsets (suc (length value)) value none 0 >>= read_parts value
