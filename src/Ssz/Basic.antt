-- ===== src/Ssz/Basic.antt =====
-- The integers and Booleans of utils/ssz/src/basic.rs, and slices of what was written.
use mathlib.Core.List.{append_assoc}
use shasper.Prelude.{
  add64, ℕ, zero, suc, ◌+◌, ◌-◌, ◌*◌, ◌/◌, ◌%◌, ◌^◌, ◌≤◌, ◌<◌, ◌≡◌, refl, sym, ap, ◌∙◌, Bool, true,
  false, [], ◌∷◌, ◌++◌, arith, length, length-append, take, drop, Bytes, le_bytes, of_le_bytes,
  le→leb,
}
use shasper.Results.{ok}
use shasper.Ssz.{slice, uint, decode_uint, boolean, encode_bool, decode_bool}

pub length-le_bytes : (width v : ℕ) → length (le_bytes width v) ≡ width
length-le_bytes zero v = refl
length-le_bytes (suc width) v = ap suc (length-le_bytes width (v / 256))

pub of_le_bytes-le_bytes : (width v : ℕ) → v < 256 ^ width → of_le_bytes (le_bytes width v) ≡ v
of_le_bytes-le_bytes zero v h = omega arith
of_le_bytes-le_bytes (suc width) v h =
    omega (arith, of_le_bytes-le_bytes width (v / 256) (grind arith))

-- Each number of the list is a byte.
abbrev pub IsBytes : Bytes → Type 0
IsBytes [] = Unit
IsBytes (b ∷ bytes) = (b < 256) × IsBytes bytes

le_bytes-of_le_bytes :
    (bytes : Bytes) → IsBytes bytes → le_bytes (length bytes) (of_le_bytes bytes) ≡ bytes
le_bytes-of_le_bytes [] h = refl
le_bytes-of_le_bytes (b ∷ bytes) (h, hs) =
    let low : (b + 256 * of_le_bytes bytes) % 256 ≡ b = omega arith in
    let high : (b + 256 * of_le_bytes bytes) / 256 ≡ of_le_bytes bytes = omega arith in
    rw (low, high, le_bytes-of_le_bytes bytes hs) refl

-- An integer that fits its width is read back from the bytes that it is written as, and each list of
-- bytes from which an integer is read is what that integer is written as.
pub uint-roundtrip :
    (width v : ℕ) (value : Bytes)
    → IsBytes value
    → (v < 256 ^ width → (uint width).decode ((uint width).encode v) ≡ ok v)
      × ((uint width).decode value ≡ ok v → (uint width).encode v ≡ value)
unfolding uint decode_uint
uint-roundtrip width v value h = (
  λ fits. ground (arith, length-le_bytes width v, of_le_bytes-le_bytes width v fits),
  λ ran. written ran,
)
  where
    written : decode_uint width value ≡ ok v → le_bytes width v ≡ value
    written ran =
        let fits : length value ≡ width = ground arith in
        let same : of_le_bytes value ≡ v = ground arith in
        rw (sym fits, sym same) (le_bytes-of_le_bytes value h)

boolean_roundtrip : (b : Bool) → boolean.decode (boolean.encode b) ≡ ok b
unfolding boolean encode_bool decode_bool decode_uint
boolean_roundtrip true = refl
boolean_roundtrip false = refl

pub drop-append : (xs ys : Bytes) → drop (length xs) (xs ++ ys) ≡ ys
drop-append [] ys = refl
drop-append (x ∷ xs) ys = drop-append xs ys

pub take-append : (xs ys : Bytes) → take (length xs) (xs ++ ys) ≡ xs
take-append [] ys = refl
take-append (x ∷ xs) ys = ap (λ (t : Bytes). x ∷ t) (take-append xs ys)

-- The slice of a middle part.
pub slice-append :
    (before part after : Bytes) (from to : ℕ)
    → from ≡ length before
    → to ≡ from + length part
    → slice (before ++ (part ++ after)) from to ≡ ok part
unfolding slice
slice-append before part after from to e e' =
    let whole : to ≤ length (before ++ (part ++ after)) =
      rw (length-append before (part ++ after), length-append part after) (omega arith) in
    let width : to - from ≡ length part = omega arith in
    let rest : drop from (before ++ (part ++ after)) ≡ part ++ after =
      rw e (drop-append before (part ++ after)) in
    rw (le→leb from to (omega arith), le→leb to _ whole, width, rest, take-append part after) refl

-- A part of a value that fits in 32 bits is cut out, and what is before it grows by it.
pub piece :
    (before part after value : Bytes)
    → value ≡ before ++ (part ++ after)
    → length value < 2 ^ 32
    → (slice value (length before) (add64 (length before) (length part)) ≡ ok part)
      × (add64 (length before) (length part) ≡ length (before ++ part))
      × (value ≡ (before ++ part) ++ after)
piece before part after value e short =
    let whole : length value ≡ length before + (length part + length after) =
      rw (e, length-append before (part ++ after), length-append part after) refl in
    let next : add64 (length before) (length part) ≡ length before + length part = omega arith in
    (
      rw (e, next) (slice-append before part after (length before) _ refl refl),
      next ∙ sym (length-append before part),
      e ∙ sym (append_assoc before part after),
    )
