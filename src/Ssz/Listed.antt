-- ===== src/Ssz/Listed.antt =====
-- Lists and arrays of values are read back from their bytes (utils/ssz/src/series.rs, utils.rs, fixed.rs,
-- variable.rs), where the bytes number less than 2 ^ 32 and the codec of the values reads back its own.
use mathlib.Core.List.{append-nil}
use shasper.Prelude.{
  ℕ, suc, ◌+◌, ◌*◌, ◌^◌, ◌≤◌, ◌<◌, ◌≡◌, inl, inr, subst, refl, sym, ap, ◌∙◌, List, [], ◌∷◌, ◌++◌,
  none, some, map, arith, length, length-append, Bytes, if◌then◌else◌, leb, Option-cases,
  Bool-cases,
}
use shasper.Results.{ok, err}
use shasper.Ssz.{uint, list_too_large, Size, Codec, is_fixed}
use shasper.Ssz.Basic.{length-le_bytes, uint-roundtrip}
use shasper.Ssz.Series.{
  SeriesItem, fixed, variable, fixed_parts_size, encode_fixed, encode_variable, decode_offset,
  front_or, front_of, within, read_items, read_offsets, read_parts,
}
use shasper.Ssz.Vectors.{
  fixed_len, variable_len, length-encode_fixed, length-encode_variable, fixed_parts_size_lem,
  offsets_of,
}
use shasper.Ssz.Series
use shasper.Ssz.Sequences.{
  AllFixed, AllVariable, read_items-encode, read_parts-encode_variable, read_offsets-encode,
}
use shasper.Ssz.Lists.{
  item_of, encode_list, decode_items, decode_list, array, decode_array, max_vec, decode_max_vec,
  vec,
}

-- What the bytes number.
abbrev pub total_len : List SeriesItem → ℕ
total_len parts = fixed_len parts + variable_len parts

length-encode : (parts : List SeriesItem) → length (Series.encode parts) ≡ total_len parts
unfolding Series.encode
length-encode parts =
    length-append (encode_fixed (fixed_parts_size 0 parts) parts) (encode_variable parts)
    ∙ rw (length-encode_fixed (fixed_parts_size 0 parts) parts, length-encode_variable parts) refl

-- There are no more items than bytes.
length-fixed :
    (parts : List SeriesItem) (n : ℕ) → AllFixed n parts → 0 < n → length parts ≤ fixed_len parts
length-fixed [] n all h = omega arith
length-fixed (fixed bytes ∷ parts) n (size, all) h = omega (arith, length-fixed parts n all h)
length-fixed (variable bytes ∷ parts) n all h = elim all [ ]

length-variable : (parts : List SeriesItem) → AllVariable parts → fixed_len parts ≡ 4 * length parts
length-variable [] all = refl
length-variable (fixed bytes ∷ parts) all = elim all [ ]
length-variable (variable bytes ∷ parts) all = omega (arith, length-variable parts all)

encode_variable_nil :
    (parts : List SeriesItem) (n : ℕ) → AllFixed n parts → encode_variable parts ≡ []
unfolding encode_variable
encode_variable_nil [] n all = refl
encode_variable_nil (fixed bytes ∷ parts) n (size, all) = encode_variable_nil parts n all
encode_variable_nil (variable bytes ∷ parts) n all = elim all [ ]

decode_list_fixed :
    (parts : List SeriesItem) (n : ℕ)
    → AllFixed n parts
    → 0 < n
    → n < 2 ^ 32
    → total_len parts < 2 ^ 32
    → Series.decode_list (Series.encode parts) (some n) ≡ ok parts
unfolding Series.decode_list
decode_list_fixed parts n all some_bytes small short =
    let start = fixed_parts_size 0 parts in
    let value = Series.encode parts in
    let whole : value ≡ encode_fixed start parts =
      unfold Series.encode in
      ap (λ (t : Bytes). encode_fixed start parts ++ t) (encode_variable_nil parts n all)
      ∙ append-nil (encode_fixed start parts) in
    let size = length-encode parts in
    read_items-encode parts n (suc (length value)) start [] value all some_bytes whole (omega arith)
      (omega (arith, length-fixed parts n all some_bytes)) small

decode_list_variable :
    (parts : List SeriesItem)
    → AllVariable parts
    → total_len parts < 2 ^ 32
    → Series.decode_list (Series.encode parts) none ≡ ok parts
unfolding Series.decode_list
decode_list_variable [] all short = unfold Series.encode read_offsets in refl
decode_list_variable (fixed bytes ∷ parts) all short = elim all [ ]
decode_list_variable (variable bytes ∷ rest) all short =
    let parts = variable bytes ∷ rest in
    let start = fixed_len parts in
    let value = Series.encode parts in
    let front = encode_fixed start parts in
    let size : fixed_parts_size 0 parts ≡ start =
      fixed_parts_size_lem 0 parts (omega arith) ∙ omega arith in
    let whole : value ≡ front ++ encode_variable parts =
      unfold Series.encode in ap (λ (n : ℕ). encode_fixed n parts ++ encode_variable parts) size in
    let total = length-encode parts in
    let offsets =
      read_offsets-encode parts (suc (length value)) start start none [] (encode_variable parts)
        value all whole (omega arith) (omega arith) (inr (refl, refl, omega arith)) (omega arith)
        (omega (arith, length-variable parts all)) in
    let read = read_parts-encode_variable parts front value all whole (omega arith) in
    let placed : offsets_of (length front) parts ≡ offsets_of start parts =
      ap (λ (n : ℕ). offsets_of n parts) (length-encode_fixed start parts) in
    rw offsets (subst (λ (os : List ℕ). read_parts value os ≡ ok parts) placed read)

-- Each value meets a predicate.
abbrev pub AllMeet {ℓ} : {A : Type ℓ} → (A → Type 0) → List A → Type 0
AllMeet P [] = Unit
AllMeet P (a ∷ as') = P a × AllMeet P as'

-- The length of a value's bytes agrees with the size of its type.
abbrev pub Sized : Size → ℕ → Type 0
Sized none len = Unit
Sized (some n) len = len ≡ n

abbrev pub Positive : Size → Type 0
Positive none = Unit
Positive (some n) = (0 < n) × (n < 2 ^ 32)

-- The values that meet `P` are read back from their bytes.
pub record Lawful {ℓ} {A : Type ℓ} (codec : Codec A) (P : A → Type 0) : Type ℓ where
  pub positive : Positive codec.size
  pub trips : (a : A) → P a → codec.decode (codec.encode a) ≡ ok a
  pub sized : (a : A) → P a → Sized codec.size (length (codec.encode a))

module _ {ℓ} {A : Type ℓ} (codec : Codec A) (P : A → Type 0) (lawful : Lawful codec P) where
  -- The bytes of the values number less than 2 ^ 32.
  abbrev pub Short : List A → Type 0
  Short values = total_len (map (item_of codec) values) < 2 ^ 32

  decode_items-item_of :
      (values : List A)
      → AllMeet P values
      → decode_items codec (map (item_of codec) values) ≡ ok values
  unfolding decode_items item_of
  decode_items-item_of [] all = refl
  decode_items-item_of (value ∷ values) (met, all) =
      let later = decode_items-item_of values all in
      elim (Bool-cases (is_fixed codec.size)) [
        | inl e ↦ rw (e, e, lawful.trips value met, later) refl
        | inr e ↦ rw (e, e, lawful.trips value met, later) refl
      ]

  items_variable : (values : List A) → codec.size ≡ none → AllVariable (map (item_of codec) values)
  unfolding item_of is_fixed
  items_variable [] e = tt
  items_variable (value ∷ values) e = rw e (items_variable values e)

  items_fixed :
      (values : List A) (n : ℕ)
      → AllMeet P values
      → codec.size ≡ some n
      → AllFixed n (map (item_of codec) values)
  unfolding item_of is_fixed
  items_fixed [] n all e = tt
  items_fixed (value ∷ values) n (met, all) e = rw e (
    subst (λ (size : Size). Sized size (length (codec.encode value))) e (lawful.sized value met),
    items_fixed values n all e,
  )

  -- A list of values is read back from its bytes, for a type of fixed size and for one of variable size,
  -- where the codec of the values reads back its own bytes and all bytes number less than 2 ^ 32.
  pub decode_list-encode_list :
      (values : List A)
      → AllMeet P values
      → Short values
      → decode_list codec (encode_list codec values) ≡ ok values
  unfolding decode_list encode_list
  decode_list-encode_list values all short =
      let parts = map (item_of codec) values in
      let read : Series.decode_list (Series.encode parts) codec.size ≡ ok parts =
        elim (Option-cases codec.size) [
          | inl e ↦
              subst (λ (size : Size). Series.decode_list (Series.encode parts) size ≡ ok parts)
                (sym e) (decode_list_variable parts (items_variable values e) short)
          | inr (n, e) ↦
              let (some_bytes, small) = subst (λ (size : Size). Positive size) e lawful.positive in
              subst (λ (size : Size). Series.decode_list (Series.encode parts) size ≡ ok parts)
                (sym e)
                (decode_list_fixed parts n (items_fixed values n all e) some_bytes small short)
        ] in
      rw read (decode_items-item_of values all)

  -- The codecs of arrays and of lists with a limit read back their own values too.
  pub array_roundtrip :
      (len : ℕ) (values : List A)
      → AllMeet P values
      → Short values
      → length values ≡ len
      → (array codec len).decode ((array codec len).encode values) ≡ ok values
  unfolding array decode_array
  array_roundtrip len values all short e =
      rw (decode_list-encode_list values all short) (ground arith)

  pub max_vec_roundtrip :
      (max_len : ℕ) (values : List A)
      → AllMeet P values
      → Short values
      → (max_vec codec max_len).decode ((max_vec codec max_len).encode values)
        ≡ (if leb (length values) max_len then ok values else err list_too_large)
  unfolding max_vec decode_max_vec
  max_vec_roundtrip max_len values all short =
      rw (decode_list-encode_list values all short) (ground arith)

  -- So the codec of lists is lawful where that of the values is, and lists nest.
  pub vec-Lawful : Lawful (vec codec) (λ values. AllMeet P values × Short values)
  unfolding vec
  vec-Lawful = record {
    positive = tt;
    trips = λ values (all, short). decode_list-encode_list values all short;
    sized = λ values met. tt;
  }

-- Integers are.
pub uint-Lawful :
    (width : ℕ) → 0 < width → width < 2 ^ 32 → Lawful (uint width) (λ v. v < 256 ^ width)
unfolding uint
uint-Lawful width some_bytes small = record {
  positive = (some_bytes, small);
  trips = λ v fits. (uint-roundtrip width v [] tt).0 fits;
  sized = λ v fits. length-le_bytes width v;
}
