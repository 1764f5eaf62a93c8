-- ===== src/Ssz/BitTrip.antt =====
-- Vectors of bits are read back from their bytes (utils/ssz/src/fixed.rs).
use shasper.Prelude.{
  ℕ, zero, suc, ◌+◌, ◌*◌, ◌/◌, ◌%◌, ◌^◌, ◌≤◌, ◌<◌, ◌≡◌, ◌≢◌, ◌⊎◌, inl, inr, refl, sym, ap, ◌∙◌,
  Bool, true, false, not, ◌&&◌, List, [], ◌∷◌, some, arith, length, length-set, length-replicate,
  get_elem?, get_or, get_or-set_self, get_or-set_ne, replicate, Bytes, ◌==◌, leb, Bool-cases,
}
use shasper.Utils.Ranges.{index_get_or}
use shasper.Results.{ok, index}
use shasper.Ssz.{Error}
use shasper.Ssz.Bits.{bit_at, or_bit, or_bit_in, write_bits, encode_bitvector, read_bits, bitvector}

half_add : (byte k : ℕ) → (byte + 2 ^ suc k) / 2 ≡ byte / 2 + 2 ^ k
half_add byte k = grind arith

bit_at-add_self : (byte k : ℕ) → bit_at byte k ≡ false → bit_at (byte + 2 ^ k) k ≡ true
unfolding bit_at
bit_at-add_self byte zero e = ground arith
bit_at-add_self byte (suc k) e = rw (half_add byte k) (bit_at-add_self (byte / 2) k e)

bit_at-add_ne :
    (byte k j : ℕ) → bit_at byte k ≡ false → k ≢ j → bit_at (byte + 2 ^ k) j ≡ bit_at byte j
unfolding bit_at
bit_at-add_ne byte zero zero e ne = absurd (ne refl)
bit_at-add_ne byte zero (suc j) e ne =
    let half : (byte + 1) / 2 ≡ byte / 2 = ground arith in ap (λ (b : ℕ). bit_at b j) half
bit_at-add_ne byte (suc k) zero e ne =
    let low : (byte + 2 ^ suc k) % 2 ≡ byte % 2 = grind arith in ap (λ (b : ℕ). b == 1) low
bit_at-add_ne byte (suc k) (suc j) e ne =
    rw (half_add byte k) (bit_at-add_ne (byte / 2) k j e (λ (same : k ≡ j). ne (ap suc same)))

get_or-replicate : (n i : ℕ) → get_or {A = ℕ} (replicate n 0) i 0 ≡ 0
get_or-replicate zero i = refl
get_or-replicate (suc n) zero = refl
get_or-replicate (suc n) (suc i) = get_or-replicate n i

bit_at_zero : (k : ℕ) → bit_at 0 k ≡ false
unfolding bit_at
bit_at_zero zero = refl
bit_at_zero (suc k) = bit_at_zero k

bit_at-or_bit_self :
    (byte k : ℕ) (bit : Bool) → bit_at byte k ≡ false → bit_at (or_bit byte k bit) k ≡ bit
unfolding or_bit
bit_at-or_bit_self byte k bit e = ground (arith, bit_at-add_self byte k)

bit_at-or_bit_ne :
    (byte k j : ℕ) (bit : Bool) → k ≢ j → bit_at (or_bit byte k bit) j ≡ bit_at byte j
unfolding or_bit
bit_at-or_bit_ne byte k j bit ne = elim (Bool-cases (bit && not (bit_at byte k))) [
  | inl e ↦ rw e (bit_at-add_ne byte k j (ground arith) ne)
  | inr e ↦ rw e refl
]

-- The bit `i` of some bytes.
abbrev pub test : Bytes → ℕ → Bool
test bytes i = bit_at (get_or bytes (i / 8) 0) (i % 8)

pub test-or_bit_in_self :
    (bytes : Bytes) (i : ℕ) (bit : Bool)
    → i / 8 < length bytes
    → test bytes i ≡ false
    → test (or_bit_in bytes i bit) i ≡ bit
unfolding or_bit_in
test-or_bit_in_self bytes i bit h e =
    rw (get_or-set_self bytes (i / 8) (or_bit (get_or bytes (i / 8) 0) (i % 8) bit) 0 h)
      (bit_at-or_bit_self (get_or bytes (i / 8) 0) (i % 8) bit e)

pub test-or_bit_in_ne :
    (bytes : Bytes) (i j : ℕ) (bit : Bool)
    → i / 8 < length bytes
    → i ≢ j
    → test (or_bit_in bytes i bit) j ≡ test bytes j
unfolding or_bit_in
test-or_bit_in_ne bytes i j bit h ne = elim (Bool-cases (i / 8 == j / 8)) [
  | inl same ↦
      let e : i / 8 ≡ j / 8 = ground arith in
      let other : i % 8 ≢ j % 8 = λ (k : i % 8 ≡ j % 8). ne (omega arith) in
      rw (sym e, get_or-set_self bytes (i / 8) (or_bit (get_or bytes (i / 8) 0) (i % 8) bit) 0 h)
        (bit_at-or_bit_ne (get_or bytes (i / 8) 0) (i % 8) (j % 8) bit other)
  | inr apart ↦
      let other : i / 8 ≢ j / 8 = λ (k : i / 8 ≡ j / 8). ground arith in
      rw (get_or-set_ne bytes (i / 8) (j / 8) (or_bit (get_or bytes (i / 8) 0) (i % 8) bit) 0 other)
        refl
]

-- A loop over bits leaves the others alone.
pub test-write_bits_ne :
    (bits : List Bool) (bytes : Bytes) (i j : ℕ)
    → i + length bits ≤ 8 * length bytes
    → (j < i) ⊎ (i + length bits ≤ j)
    → test (write_bits bytes i bits) j ≡ test bytes j
unfolding write_bits
test-write_bits_ne [] bytes i j h apart = refl
test-write_bits_ne (bit ∷ bits) bytes i j h apart =
    let kept : length (or_bit_in bytes i bit) ≡ length bytes =
      unfold or_bit_in in length-set bytes (i / 8) _ in
    test-write_bits_ne bits (or_bit_in bytes i bit) (suc i) j (omega arith)
      (elim apart [ inl p ↦ inl (omega arith) | inr p ↦ inr (omega arith) ])
    ∙ test-or_bit_in_ne bytes i j bit (omega arith)
        (λ (same : i ≡ j). elim apart [ inl p ↦ omega arith | inr p ↦ omega arith ])

pub length-or_bit_in :
    (bytes : Bytes) (i : ℕ) (bit : Bool) → length (or_bit_in bytes i bit) ≡ length bytes
unfolding or_bit_in
length-or_bit_in bytes i bit =
    length-set bytes (i / 8) (or_bit (get_or bytes (i / 8) 0) (i % 8) bit)

pub length-write_bits :
    (bits : List Bool) (bytes : Bytes) (i : ℕ) → length (write_bits bytes i bits) ≡ length bytes
unfolding write_bits
length-write_bits [] bytes i = refl
length-write_bits (bit ∷ bits) bytes i =
    length-write_bits bits (or_bit_in bytes i bit) (suc i) ∙ length-or_bit_in bytes i bit

-- And it writes its own where they are clear.
pub test-write_bits :
    (bits : List Bool) (bytes : Bytes) (i k : ℕ) (bit : Bool)
    → i + length bits ≤ 8 * length bytes
    → ((j : ℕ) → i ≤ j → test bytes j ≡ false)
    → get_elem? bits k ≡ some bit
    → test (write_bits bytes i bits) (i + k) ≡ bit
unfolding write_bits
test-write_bits [] bytes i k bit h clear e = absurd (cc)
test-write_bits (first ∷ bits) bytes i zero bit h clear e =
    let kept = length-or_bit_in bytes i first in
    let here : i + 0 ≡ i = omega arith in
    let same : first ≡ bit = cc in
    ap (λ (j : ℕ). test (write_bits (or_bit_in bytes i first) (suc i) bits) j) here
    ∙ test-write_bits_ne bits (or_bit_in bytes i first) (suc i) i (omega arith) (inl (omega arith))
    ∙ test-or_bit_in_self bytes i first (omega arith) (clear i (omega arith))
    ∙ same
test-write_bits (first ∷ bits) bytes i (suc k) bit h clear e =
    let kept = length-or_bit_in bytes i first in
    let next : i + suc k ≡ suc i + k = omega arith in
    let unread : (j : ℕ) → suc i ≤ j → test (or_bit_in bytes i first) j ≡ false = λ j le.
      test-or_bit_in_ne bytes i j first (omega arith) (λ (same : i ≡ j). omega arith)
      ∙ clear j (omega arith) in
    ap (λ (j : ℕ). test (write_bits (or_bit_in bytes i first) (suc i) bits) j) next
    ∙ test-write_bits bits (or_bit_in bytes i first) (suc i) k bit (omega arith) unread e

-- The loop that reads bits reads those that the test finds.
pub read_bits_lem :
    (bits : List Bool) (value : Bytes) (i : ℕ)
    → i + length bits ≤ 8 * length value
    → ((k : ℕ) (bit : Bool) → get_elem? bits k ≡ some bit → test value (i + k) ≡ bit)
    → read_bits value i (length bits) ≡ ok bits
unfolding read_bits
read_bits_lem [] value i h found = refl
read_bits_lem (bit ∷ bits) value i h found =
    let inside : leb (length value) (i / 8) ≡ false = ground arith in
    let byte : index {E = Error} value (i / 8) ≡ ok (get_or value (i / 8) 0) =
      index_get_or value (i / 8) (omega arith) in
    let here_index : i ≡ i + 0 = omega arith in
    let next : (k : ℕ) → suc i + k ≡ i + suc k = λ k. omega arith in
    let here : test value i ≡ bit = ap (λ (j : ℕ). test value j) (here_index) ∙ found 0 bit refl in
    let later =
      read_bits_lem bits value (suc i) (omega arith)
        (λ k b e. ap (λ (j : ℕ). test value j) (next k) ∙ found (suc k) b e) in
    rw (inside, byte, here, later) refl

pub test-replicate : (n j : ℕ) → test (replicate n 0) j ≡ false
test-replicate n j = rw (get_or-replicate n (j / 8)) (bit_at_zero (j % 8))

-- A vector of fewer than 2 ^ 32 bits is read back from its bytes.
bitvector_roundtrip :
    (bits : List Bool)
    → length bits < 2 ^ 32
    → (bitvector (length bits)).decode ((bitvector (length bits)).encode bits) ≡ ok bits
unfolding bitvector encode_bitvector
bitvector_roundtrip bits small =
    let zeros : Bytes = replicate ((length bits + 7) / 8) 0 in
    let size : length zeros ≡ (length bits + 7) / 8 = length-replicate ((length bits + 7) / 8) 0 in
    let kept : length (write_bits zeros 0 bits) ≡ length zeros = length-write_bits bits zeros 0 in
    let written : (k : ℕ) (bit : Bool)
        → get_elem? bits k ≡ some bit
        → test (write_bits zeros 0 bits) (0 + k) ≡ bit =
      λ k bit e.
        test-write_bits bits zeros 0 k bit (omega arith)
          (λ j le. test-replicate ((length bits + 7) / 8) j) e in
    read_bits_lem bits (write_bits zeros 0 bits) 0 (omega arith) written
