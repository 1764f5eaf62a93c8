-- ===== src/Ssz/BitListTrip.antt =====
-- Lists of bits are read back from their bytes (utils/ssz/src/variable.rs).
use shasper.Prelude.{
  ℕ, zero, suc, ◌+◌, ◌-◌, ◌*◌, ◌/◌, ◌%◌, ◌^◌, ◌≤◌, ◌<◌, ◌≡◌, subst, inl, inr, ap, ◌∙◌, Bool, true,
  false, List, some, arith, length, length-replicate, get_elem?, lt-of_get_elem?, get_or, replicate,
  Bytes, ◌==◌, Bool-cases, sub64,
}
use shasper.Utils.Ranges.{index_get_or}
use shasper.Results.{ok, index}
use shasper.Ssz.{Error}
use shasper.Ssz.Bits.{
  bit_at, or_bit_in, write_bits, encode_bitlist, leading_zeros, bitlist_len, decode_bitlist,
  bitlist,
}
use shasper.Ssz.BitTrip.{
  test, test-or_bit_in_self, test-or_bit_in_ne, test-write_bits_ne, length-or_bit_in,
  length-write_bits, test-write_bits, read_bits_lem, test-replicate,
}

-- The leading zeros above the highest bit that is set.
leading_zeros_lem :
    (k byte top : ℕ)
    → top < k
    → bit_at byte top ≡ true
    → ((j : ℕ) → top < j → j < k → bit_at byte j ≡ false)
    → leading_zeros k byte ≡ k - 1 - top
unfolding leading_zeros
leading_zeros_lem zero byte top h set_top clear = absurd (omega arith)
leading_zeros_lem (suc k) byte top h set_top clear = elim (Bool-cases (k == top)) [
  | inl same ↦
      let e : k ≡ top = ground arith in
      let is_set : bit_at byte k ≡ true = ap (λ (j : ℕ). bit_at byte j) e ∙ set_top in
      rw is_set (omega arith)
  | inr other ↦
      let below : top < k = ground arith in
      let is_clear : bit_at byte k ≡ false = clear k below (omega arith) in
      let later = leading_zeros_lem k byte top below set_top (λ j p q. clear j p (omega arith)) in
      rw (is_clear, later) (omega arith)
]

-- What `encode_bitlist` wrote, bit by bit.
module _ (bits : List Bool) where
  abbrev zeros : Bytes
  zeros = replicate ((length bits + 1 + 7) / 8) 0

  abbrev unended : Bytes
  unended = write_bits zeros 0 bits

  abbrev ended : Bytes
  ended = or_bit_in unended (length bits) true

  unended-length : length unended ≡ (length bits + 1 + 7) / 8
  unended-length = length-write_bits bits zeros 0 ∙ length-replicate ((length bits + 1 + 7) / 8) 0

  ended-length : length ended ≡ (length bits + 1 + 7) / 8
  ended-length = length-or_bit_in unended (length bits) true ∙ unended-length

  zeros-length : length zeros ≡ (length bits + 1 + 7) / 8
  zeros-length = length-replicate ((length bits + 1 + 7) / 8) 0

  unended_clear : (j : ℕ) → length bits ≤ j → test unended j ≡ false
  unended_clear j le =
      let size = zeros-length in
      test-write_bits_ne bits zeros 0 j (omega arith) (inr (omega arith))
      ∙ test-replicate ((length bits + 1 + 7) / 8) j

  ended-bits : (k : ℕ) (bit : Bool) → get_elem? bits k ≡ some bit → test ended (0 + k) ≡ bit
  ended-bits k bit e =
      let size = zeros-length in
      let size' = unended-length in
      let inside = lt-of_get_elem? bits k e in
      test-or_bit_in_ne unended (length bits) (0 + k) true (omega arith)
        (λ (same : length bits ≡ 0 + k). omega arith)
      ∙ test-write_bits bits zeros 0 k bit (omega arith)
          (λ j le. test-replicate ((length bits + 1 + 7) / 8) j) e

  ended_top : test ended (length bits) ≡ true
  ended_top =
      let size = unended-length in
      test-or_bit_in_self unended (length bits) true (omega arith)
        (unended_clear (length bits) (omega arith))

  ended_clear : (j : ℕ) → length bits < j → test ended j ≡ false
  ended_clear j h =
      let size = unended-length in
      test-or_bit_in_ne unended (length bits) j true (omega arith)
        (λ (same : length bits ≡ j). omega arith)
      ∙ unended_clear j (omega arith)

  above :
      (j : ℕ) → length bits % 8 < j → j < 8 → bit_at (get_or ended (length bits / 8) 0) j ≡ false
  above j p q =
      let i = length bits / 8 * 8 + j in
      let same_byte : i / 8 ≡ length bits / 8 = omega arith in
      let same_bit : i % 8 ≡ j = omega arith in
      subst (λ (b : ℕ). bit_at (get_or ended b 0) j ≡ false) same_byte
        (subst (λ (k : ℕ). bit_at (get_or ended (i / 8) 0) k ≡ false) same_bit
          (ended_clear i (omega arith)))

  ended_len : length bits < 2 ^ 32 → bitlist_len ended ≡ ok (length bits)
  unfolding bitlist_len
  ended_len small =
      let size = ended-length in
      let last : sub64 (length ended) 1 ≡ length bits / 8 = omega arith in
      let byte : index {E = Error} ended (length bits / 8) ≡ ok (get_or ended (length bits / 8) 0) =
        index_get_or ended (length bits / 8) (omega arith) in
      let zeros_above : leading_zeros 8 (get_or ended (length bits / 8) 0)
          ≡ 8 - 1 - length bits % 8 =
        leading_zeros_lem 8 (get_or ended (length bits / 8) 0) (length bits % 8) (omega arith)
          ended_top (λ j p q. above j p q) in
      rw (last, byte, zeros_above) (ap ok (omega arith))

-- A list of fewer than 2 ^ 32 bits is read back from its bytes.
pub bitlist_roundtrip :
    (bits : List Bool) → length bits < 2 ^ 32 → bitlist.decode (bitlist.encode bits) ≡ ok bits
unfolding bitlist encode_bitlist decode_bitlist
bitlist_roundtrip bits small =
    let size = ended-length bits in
    rw (ended_len bits small) (read_bits_lem bits (ended bits) 0 (omega arith) (ended-bits bits))
