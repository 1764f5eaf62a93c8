-- ===== src/Ssz/Bits.antt =====
-- utils/ssz/src/fixed.rs, variable.rs: bits in bytes, the lowest bit first. A list of bits ends with a
-- bit that is set.
use shasper.Prelude.{
  ℕ, zero, suc, ◌+◌, ◌/◌, ◌%◌, ◌^◌, Bool, true, not, ◌&&◌, List, [], ◌∷◌, none, some, if◌then◌else◌,
  ◌==◌, leb, length, set, get_or, replicate, Bytes, add64, sub64, mul64,
}
use shasper.Results.{Result, ok, err, ◌>>=◌, ◌>>◌, require, index}
use shasper.Ssz.{Error, incorrect_size, list_too_large, Codec, add_size, div_size}

-- `byte & (1 << k) != 0`
unfoldable pub bit_at : ℕ → ℕ → Bool
bit_at byte zero = byte % 2 == 1
bit_at byte (suc k) = bit_at (byte / 2) k

-- `byte |= (bit as u8) << k`
unfoldable pub or_bit : ℕ → ℕ → Bool → ℕ
unfolding bit_at
or_bit byte k bit = if bit && not (bit_at byte k) then byte + 2 ^ k else byte

-- `bytes[i / 8] |= (bit as u8) << (i % 8)`; all indices are in range.
unfoldable pub or_bit_in : Bytes → ℕ → Bool → Bytes
unfolding or_bit
or_bit_in bytes i bit = set bytes (i / 8) (or_bit (get_or bytes (i / 8) 0) (i % 8) bit)

-- The loop over the bits, from the bit `i` on.
unfoldable pub write_bits : Bytes → ℕ → List Bool → Bytes
unfolding or_bit_in
write_bits bytes i [] = bytes
write_bits bytes i (bit ∷ bits) = write_bits (or_bit_in bytes i bit) (suc i) bits

-- A vector of bits: `Compact<GenericArray<bool, L>>`, `Compact<VecArray<bool, L>>`.
unfoldable pub encode_bitvector : List Bool → Bytes
unfolding write_bits
encode_bitvector bits = write_bits (replicate ((length bits + 7) / 8) 0) 0 bits

-- The loop over the `n` bits from the bit `i` on.
unfoldable pub read_bits : Bytes → ℕ → ℕ → Result Error (List Bool)
unfolding bit_at
read_bits value i zero = ok []
read_bits value i (suc n) =
    let rest = read_bits value (suc i) n in
    if leb (length value) (i / 8)
    then err incorrect_size
    else (do byte ← index value (i / 8); bits ← rest; ok (bit_at byte (i % 8) ∷ bits))

unfoldable pub bitvector : ℕ → Codec (List Bool)
unfolding add_size div_size encode_bitvector read_bits
bitvector len = record {
  size = div_size (add_size (some len) (some 7)) (some 8);
  encode = encode_bitvector;
  decode = λ value. read_bits value 0 len;
}

-- A list of bits: `Compact<Vec<bool>>`. The last byte holds the bit that ends the list.
unfoldable pub encode_bitlist : List Bool → Bytes
unfolding write_bits or_bit_in
encode_bitlist bits =
    or_bit_in (write_bits (replicate ((length bits + 1 + 7) / 8) 0) 0 bits) (length bits) true

-- `leading_zeros`, from the bit below `k` down.
unfoldable pub leading_zeros : ℕ → ℕ → ℕ
unfolding bit_at
leading_zeros zero byte = 0
leading_zeros (suc k) byte = if bit_at byte k then 0 else suc (leading_zeros k byte)

-- On no byte the index wraps and is out of range; on a last byte of zero the subtraction wraps.
unfoldable pub bitlist_len : Bytes → Result Error ℕ
unfolding leading_zeros
bitlist_len value = index value (sub64 (length value) 1) >>= λ last.
    ok (add64 (mul64 (sub64 (length value) 1) 8) (sub64 7 (leading_zeros 8 last)))

unfoldable pub decode_bitlist : Bytes → Result Error (List Bool)
unfolding bitlist_len read_bits
decode_bitlist value = bitlist_len value >>= read_bits value 0

unfoldable pub bitlist : Codec (List Bool)
unfolding encode_bitlist decode_bitlist
bitlist = record { size = none; encode = encode_bitlist; decode = decode_bitlist }

-- `Compact<MaxVec<bool, ML>>`
unfoldable pub decode_max_bitlist : ℕ → Bytes → Result Error (List Bool)
unfolding decode_bitlist
decode_max_bitlist max_len value = decode_bitlist value >>= λ decoded.
    require (leb (length decoded) max_len) list_too_large >> ok decoded

unfoldable pub max_bitlist : ℕ → Codec (List Bool)
unfolding encode_bitlist decode_max_bitlist
max_bitlist max_len = record {
  size = none;
  encode = encode_bitlist;
  decode = decode_max_bitlist max_len;
}
