-- ===== src/Ssz/Lists.antt =====
-- utils/ssz/src/utils.rs, fixed.rs, variable.rs: sequences of values of one type, as an array of a fixed
-- length, a list, and a list with a greatest length.
use shasper.Prelude.{
  ℕ, List, [], ◌∷◌, none, some, if◌then◌else◌, ◌==◌, leb, length, map, Bytes, not,
}
use shasper.Results.{Result, ok, ◌>>=◌, ◌>>◌, require}
use shasper.Ssz.{
  Error, invalid_type, invalid_length, list_too_large, Codec, is_fixed, mul_size, uint,
}
use shasper.Ssz.Series

module _ {ℓ} {A : Type ℓ} (codec : Codec A) where
  unfoldable pub item_of : A → Series.SeriesItem
  unfolding is_fixed
  item_of value =
      if is_fixed codec.size
      then Series.SeriesItem.fixed (codec.encode value)
      else Series.SeriesItem.variable (codec.encode value)

  unfoldable pub encode_list : List A → Bytes
  unfolding item_of Series.encode
  encode_list values = Series.encode (map item_of values)

  -- The loop over the items; one of the other kind is an invalid type.
  unfoldable pub decode_items : List Series.SeriesItem → Result Error (List A)
  unfolding is_fixed
  decode_items [] = ok []
  decode_items (Series.SeriesItem.fixed bytes ∷ parts) = do
    require (is_fixed codec.size) invalid_type
    value ← codec.decode bytes
    rest ← decode_items parts
    ok (value ∷ rest)
  decode_items (Series.SeriesItem.variable bytes ∷ parts) = do
    require (not (is_fixed codec.size)) invalid_type
    value ← codec.decode bytes
    rest ← decode_items parts
    ok (value ∷ rest)

  unfoldable pub decode_list : Bytes → Result Error (List A)
  unfolding Series.decode_list decode_items
  decode_list value = Series.decode_list value codec.size >>= decode_items

  -- `GenericArray<T, L>` and `VecArray<T, L>`.
  unfoldable pub decode_array : ℕ → Bytes → Result Error (List A)
  unfolding decode_list
  decode_array len value =
      decode_list value >>= λ decoded. require (length decoded == len) invalid_length >> ok decoded

  unfoldable pub array : ℕ → Codec (List A)
  unfolding mul_size encode_list decode_array
  array len = record {
    size = mul_size codec.size (some len);
    encode = encode_list;
    decode = decode_array len;
  }

  -- `Vec<T>`
  unfoldable pub vec : Codec (List A)
  unfolding encode_list decode_list
  vec = record { size = none; encode = encode_list; decode = decode_list }

  -- `MaxVec<T, ML>`
  unfoldable pub decode_max_vec : ℕ → Bytes → Result Error (List A)
  unfolding decode_list
  decode_max_vec max_len value = decode_list value >>= λ decoded.
      require (leb (length decoded) max_len) list_too_large >> ok decoded

  unfoldable pub max_vec : ℕ → Codec (List A)
  unfolding encode_list decode_max_vec
  max_vec max_len = record { size = none; encode = encode_list; decode = decode_max_vec max_len }

-- `H256`, an array of 32 bytes.
unfoldable pub h256 : Codec Bytes
unfolding array uint
h256 = array (uint 1) 32
