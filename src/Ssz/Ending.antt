-- ===== src/Ssz/Ending.antt =====
-- Where the loops of `decode_list` end (utils/ssz/src/series.rs).
use shasper.Prelude.{
  ◌⊎◌, Bool, leb→le, ℕ, zero, suc, ◌-◌, ◌^◌, ◌≤◌, ◌<◌, ◌≡◌, ◌≢◌, refl, Bytes, length, leb, le→leb,
  arith, some, add64, if◌then◌else◌, true, false, inl, inr,
}
use shasper.Results.{Result, ok, err, panic, diverge, ◌>>=◌}
use shasper.Ssz.{Error, slice}
use shasper.Ssz.Series.{read_items, decode_list}

-- A call that returns, fails or panics, but does not go on for ever.
abbrev pub Returns {ℓ} : {A : Type ℓ} → Result Error A → Type ℓ
Returns result = result ≢ diverge

slice-Returns : (value : Bytes) (from to : ℕ) → Returns (slice value from to)
unfolding slice
slice-Returns value from to = ground arith

bind-Returns :
    {A B : Type 0} (call : Result Error A) (next : A → Result Error B)
    → Returns call
    → ((a : A) → Returns (next a))
    → Returns (call >>= next)
bind-Returns (ok a) next r s = s a
bind-Returns (err e) next r s = λ h. cc
bind-Returns panic next r s = λ h. cc
bind-Returns diverge next r s = absurd (r refl)

if_Returns :
    {A : Type 0} (b : Bool) (x y : Result Error A)
    → (b ≡ true → Returns x)
    → Returns y
    → Returns (if b then x else y)
if_Returns true x y r s = r refl
if_Returns false x y r s = s

read_items-Returns :
    (fuel n pos : ℕ) (value : Bytes)
    → 0 < n
    → n < 2 ^ 32
    → length value < 2 ^ 32
    → pos ≤ length value
    → length value - pos < fuel
    → Returns (read_items fuel value n pos)
unfolding read_items
read_items-Returns zero n pos value some_bytes small short inside enough = absurd (omega arith)
read_items-Returns (suc fuel) n pos value some_bytes small short inside enough =
    if_Returns (leb (add64 pos n) (length value)) _ _
      (λ more.
        let within = leb→le _ _ more in
        let later =
          read_items-Returns fuel n (add64 pos n) value some_bytes small short within
            (omega arith) in
        bind-Returns (slice value pos (add64 pos n)) _ (slice-Returns value pos (add64 pos n))
          (λ bytes. bind-Returns (read_items fuel value n (add64 pos n)) _ later (λ items h. cc)))
      (λ h. cc)

read_items_zero :
    (fuel : ℕ) (value : Bytes) (pos : ℕ)
    → pos ≤ length value
    → length value < 2 ^ 32
    → read_items fuel value 0 pos ≡ diverge
unfolding read_items slice
read_items_zero zero value pos inside short = refl
read_items_zero (suc fuel) value pos inside short =
    let same : add64 pos 0 ≡ pos = omega arith in
    rw
      (
        same,
        le→leb pos (length value) inside,
        le→leb pos pos (omega arith),
        read_items_zero fuel value pos inside short,
      )
      refl

-- The decoder of a list of items of one size ends on every value below 2 ^ 32 bytes where the size is
-- positive; where it is zero its loop never comes to an end, however many rounds it is given.
pub decode_list_ends :
    (value : Bytes) (n : ℕ)
    → length value < 2 ^ 32
    → n < 2 ^ 32
    → ((0 < n) × (decode_list value (some n) ≢ diverge))
      ⊎ ((n ≡ 0) × ((rounds : ℕ) → read_items rounds value n 0 ≡ diverge))
unfolding decode_list
decode_list_ends value zero short small =
    inr (refl, λ rounds. read_items_zero rounds value 0 (omega arith) short)
decode_list_ends value (suc n) short small = inl (
  omega arith,
  read_items-Returns (suc (length value)) (suc n) 0 value (omega arith) small short (omega arith)
      (omega arith),
)
