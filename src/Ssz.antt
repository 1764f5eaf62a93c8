-- ===== src/Ssz.antt =====
-- utils/ssz/src: SimpleSerialize. Here the errors, the sizes, the integers and Booleans, and the interface
-- of the two traits. A `usize` has 64 bits; a slice out of range panics.
pub mod Series
pub mod Lists
pub mod Bits
pub mod Basic
pub mod Vectors
pub mod Sequences
pub mod Listed
pub mod BitTrip
pub mod BitListTrip
pub mod Ending
use shasper.Prelude.{
  ◌≡◌, ℕ, ◌+◌, ◌-◌, ◌*◌, ◌/◌, ◌%◌, ◌^◌, Bool, true, false, List, [], ◌∷◌, ◌++◌, Option, none, some,
  if◌then◌else◌, ◌==◌, leb, length, take, drop, Bytes, le_bytes, of_le_bytes, u64_mod, add64, mul64,
}
use shasper.Results.{Result, ok, err, panic, ◌>>=◌, ◌>>◌, require}

-- `Other`, a wrapped error of input and output, is not produced by the crate.
pub data Error : Type 0 where
  incorrect_size : Error
  invalid_type : Error
  invalid_length : Error
  list_too_large : Error
  other : Bytes → Error

-- `value[from..to]`
unfoldable pub slice : Bytes → ℕ → ℕ → Result Error Bytes
slice value from to =
    if leb from to
    then (if leb to (length value) then ok (take (to - from) (drop from value)) else panic)
    else panic

-- A size is a number of bytes, or none for a value of variable size.
abbrev pub Size : Type 0
Size = Option ℕ

unfoldable pub is_fixed : Size → Bool
is_fixed none = false
is_fixed (some n) = true

unfoldable pub add_size : Size → Size → Size
add_size (some a) (some b) = some (add64 a b)
add_size (some a) none = none
add_size none b = none

unfoldable pub mul_size : Size → Size → Size
mul_size (some a) (some b) = some (mul64 a b)
mul_size (some a) none = none
mul_size none b = none

-- Division panics on zero; the crate divides by eight only.
unfoldable pub div_size : Size → Size → Size
div_size (some a) (some b) = some (a / b)
div_size (some a) none = none
div_size none b = none

-- The traits `Codec`, `Encode` and `Decode` of a type.
pub record Codec {ℓ} (A : Type ℓ) : Type ℓ where
  pub size : Size
  pub encode : A → Bytes
  pub decode : Bytes → Result Error A

-- The integers of `width` bytes.
unfoldable pub decode_uint : ℕ → Bytes → Result Error ℕ
decode_uint width value = require (length value == width) incorrect_size >> ok (of_le_bytes value)

unfoldable pub uint : ℕ → Codec ℕ
unfolding decode_uint
uint width = record { size = some width; encode = le_bytes width; decode = decode_uint width }

unfoldable pub encode_bool : Bool → Bytes
encode_bool true = le_bytes 1 1
encode_bool false = le_bytes 1 0

unfoldable pub decode_bool : Bytes → Result Error Bool
unfolding decode_uint
decode_bool value = decode_uint 1 value >>= λ byte.
    if byte == 1 then ok true else (if byte == 0 then ok false else err invalid_type)

unfoldable pub boolean : Codec Bool
unfolding encode_bool decode_bool
boolean = record { size = some 1; encode = encode_bool; decode = decode_bool }

-- `LengthOffset`, a `u32`, takes four bytes.
abbrev pub offset_len : ℕ
offset_len = 4
