-- ===== src/Ssz/Sequences.antt =====
-- The loops of `decode_list` on what `encode` wrote (utils/ssz/src/series.rs).
use mathlib.Core.List.{append_assoc, append-nil}
use shasper.Prelude.{
  ℕ, zero, suc, ◌+◌, ◌%◌, ◌^◌, ◌≤◌, ◌<◌, ◌≡◌, ◌⊎◌, inl, inr, subst, refl, sym, ap, ◌∙◌, List, [],
  ◌∷◌, ◌++◌, Option, none, some, true, false, arith, length, length-append, Bytes, le_bytes, add64,
  leb, le→leb, ◌&&◌,
}
use shasper.Results.{ok}
use shasper.Ssz.{slice, offset_len}
use shasper.Ssz.Basic.{piece}
use shasper.Ssz.Series.{
  SeriesItem, fixed, variable, encode_fixed, encode_variable, decode_offset, front_of, within,
  read_items, read_offsets, read_parts,
}
use shasper.Ssz.Vectors.{
  fixed_len, variable_len, length-encode_variable, decode_offset-append, offsets_of,
  front_or-offsets_of,
}

-- All items are fixed, of one size, or all are variable.
abbrev pub AllFixed : ℕ → List SeriesItem → Type 0
AllFixed n [] = Unit
AllFixed n (fixed bytes ∷ parts) = (length bytes ≡ n) × AllFixed n parts
AllFixed n (variable bytes ∷ parts) = ⊥

abbrev pub AllVariable : List SeriesItem → Type 0
AllVariable [] = Unit
AllVariable (fixed bytes ∷ parts) = ⊥
AllVariable (variable bytes ∷ parts) = AllVariable parts

pub read_items-encode :
    (parts : List SeriesItem) (n fuel offset : ℕ) (before value : Bytes)
    → AllFixed n parts
    → 0 < n
    → value ≡ before ++ encode_fixed offset parts
    → length value < 2 ^ 32
    → length parts < fuel
    → n < 2 ^ 32
    → read_items fuel value n (length before) ≡ ok parts
unfolding read_items encode_fixed
read_items-encode parts n zero offset before value all some_bytes e short enough small =
    absurd (omega arith)
read_items-encode [] n (suc fuel) offset before value all some_bytes e short enough small =
    let whole : length value ≡ length before = ap length e ∙ ap length (append-nil before) in
    let past : leb (add64 (length before) n) (length value) ≡ false = ground arith in rw past refl
read_items-encode (fixed bytes ∷ parts) n (suc fuel) offset before value (size, all) some_bytes e
      short enough small =
    let rest = encode_fixed offset parts in
    let (cut, next, e') = piece before bytes rest value e short in
    let whole : length value ≡ length (before ++ bytes) + length rest =
      ap length e' ∙ length-append (before ++ bytes) rest in
    let next' : add64 (length before) n ≡ length (before ++ bytes) =
      subst (λ (k : ℕ). add64 (length before) k ≡ length (before ++ bytes)) size next in
    let cut' =
      subst (λ (k : ℕ). slice value (length before) (add64 (length before) k) ≡ ok bytes) size
        cut in
    let more : leb (length (before ++ bytes)) (length value) ≡ true = le→leb _ _ (omega arith) in
    let later =
      read_items-encode parts n fuel offset (before ++ bytes) value all some_bytes e' short
        (omega arith) small in
    rw (cut', next', more, later) refl
read_items-encode (variable bytes ∷ parts) n (suc fuel) offset before value all some_bytes e short
      enough small =
    elim all [ ]

pub read_parts-encode_variable :
    (parts : List SeriesItem) (before value : Bytes)
    → AllVariable parts
    → value ≡ before ++ encode_variable parts
    → length value < 2 ^ 32
    → read_parts value (offsets_of (length before) parts) ≡ ok parts
unfolding read_parts encode_variable
read_parts-encode_variable [] before value all e short = refl
read_parts-encode_variable (fixed bytes ∷ parts) before value all e short = elim all [ ]
read_parts-encode_variable (variable bytes ∷ parts) before value all e short =
    let (cut, next, e') = piece before bytes (encode_variable parts) value e short in
    let whole : length value ≡ length (before ++ bytes) + variable_len parts =
      ap length e'
      ∙ length-append (before ++ bytes) (encode_variable parts)
      ∙ ap (λ (n : ℕ). length (before ++ bytes) + n) (length-encode_variable parts) in
    let moved : length before + length bytes ≡ length (before ++ bytes) =
      sym (length-append before bytes) in
    let end = front_or-offsets_of parts (length (before ++ bytes)) (length value) whole in
    let cut' : slice value (length before) (length (before ++ bytes)) ≡ ok bytes =
      subst (λ (to : ℕ). slice value (length before) to ≡ ok bytes) next cut in
    rw (moved, end, cut', read_parts-encode_variable parts (before ++ bytes) value all e' short)
      refl

-- The front of the queue is known, or it is the offset that comes next.
abbrev Known : Option ℕ → ℕ → ℕ → List SeriesItem → Type 0
Known first front offset parts =
    (first ≡ some front) ⊎ ((first ≡ none) × (offset ≡ front) × (0 < length parts))

front-Known :
    (first : Option ℕ) (front offset : ℕ) (parts : List SeriesItem)
    → Known first front offset parts
    → front_of first offset ≡ front
front-Known first front offset parts (inl e) = rw e refl
front-Known first front offset parts (inr (e, same, some_parts)) = rw e same

within-Known :
    (first : Option ℕ) (front offset end : ℕ) (parts : List SeriesItem)
    → Known first front offset parts
    → end ≤ front
    → within end first ≡ true
within-Known first front offset end parts (inl e) h = rw e (le→leb end front h)
within-Known first front offset end parts (inr (e, same, some_parts)) h = rw e refl

pub read_offsets-encode :
    (parts : List SeriesItem) (fuel offset front : ℕ) (first : Option ℕ)
    (before after value : Bytes)
    → AllVariable parts
    → value ≡ before ++ (encode_fixed offset parts ++ after)
    → length value < 2 ^ 32
    → offset + variable_len parts < 2 ^ 32
    → Known first front offset parts
    → front ≡ length before + fixed_len parts
    → length parts < fuel
    → read_offsets fuel value first (length before) ≡ ok (offsets_of offset parts)
unfolding read_offsets encode_fixed
read_offsets-encode parts zero offset front first before after value all e short small known end
      enough =
    absurd (omega arith)
read_offsets-encode [] (suc fuel) offset front first before after value all e short small
      (inl known) end enough =
    let whole : length value ≡ length before + length after =
      ap length e ∙ length-append before after in
    let past : (leb (add64 (length before) offset_len) (length value)
          && leb (add64 (length before) offset_len) front)
        ≡ false =
      ground arith in
    rw known (rw past refl)
read_offsets-encode [] (suc fuel) offset front first before after value all e short small
      (inr (known, same, some_parts)) end enough =
    absurd (omega arith)
read_offsets-encode (fixed bytes ∷ parts) (suc fuel) offset front first before after value all e
      short small known end enough =
    elim all [ ]
read_offsets-encode (variable bytes ∷ parts) (suc fuel) offset front first before after value all e
      short small known end enough =
    let here = le_bytes 4 (offset % 2 ^ 32) in
    let rest = encode_fixed (offset + length bytes) parts in
    let moved : add64 offset (length bytes) ≡ offset + length bytes = omega arith in
    let e_1 : value ≡ before ++ ((here ++ rest) ++ after) =
      e ∙ ap (λ (o : ℕ). before ++ ((here ++ encode_fixed o parts) ++ after)) moved in
    let e_2 = e_1 ∙ ap (λ (t : Bytes). before ++ t) (append_assoc here rest after) in
    let (cut, next, e') = piece before here (rest ++ after) value e_2 short in
    let total : length value ≡ length (before ++ here) + length (rest ++ after) =
      ap length e' ∙ length-append (before ++ here) (rest ++ after) in
    let grown : length (before ++ here) ≡ length before + 4 = length-append before here in
    let read : decode_offset value (length before) ≡ ok offset =
      rw e_2 (decode_offset-append before (rest ++ after) offset (omega arith) (omega arith)) in
    let more : leb (length (before ++ here)) (length value) ≡ true = le→leb _ _ (omega arith) in
    let inside =
      within-Known first front offset (length (before ++ here)) (variable bytes ∷ parts) known
        (omega arith) in
    let later =
      read_offsets-encode parts fuel (offset + length bytes) front (some front) (before ++ here)
        after value all e' short (omega arith) (inl refl) (omega arith) (omega arith) in
    rw
      (
        read,
        next,
        more,
        inside,
        front-Known first front offset (variable bytes ∷ parts) known,
        later,
      )
      refl
