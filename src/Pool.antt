-- ===== src/Pool.antt =====
-- blockchain/src/pool.rs: attestations that wait for a block, by the root of what they attest. A map
-- is a list of its entries in the order of their insertion.
pub mod Aggregates
use shasper.Prelude.{
  ◌≡◌, ℕ, zero, suc, ◌+◌, Bool, true, false, ◌||◌, List, [], ◌∷◌, ◌++◌, map, if◌then◌else◌, length,
  Bytes, bytes_eq, keep, not,
}
use shasper.Types.{Attestation, AttestationDataAndCustodyBit}
use shasper.Outcome.{Outcome, ok, panic, ◌>>=◌, ◌>>◌, index, update}
use shasper.Config.{Config, BlsConfig}

abbrev pub AttestationPool : Type 0
AttestationPool = List (Bytes × List Attestation)

unfoldable pub new : AttestationPool
new = []

-- The loop for `has_duplicate`: it reads the bits of the new attestation at the places of the old one.
unfoldable pub has_duplicate : List Bool → ℕ → ℕ → Bool → Outcome Bool
has_duplicate bits i zero found = ok found
has_duplicate bits i (suc n) found =
    index bits i >>= λ bit. has_duplicate bits (suc i) n (if bit then true else found)

-- `existing[i] |= bit` for each bit, from the index `i` on.
unfoldable pub or_bits : List Bool → ℕ → List Bool → Outcome (List Bool)
or_bits existing i [] = ok existing
or_bits existing i (bit ∷ bits) = index existing i >>= λ old.
    update existing i (old || bit) >>= λ written. or_bits written (suc i) bits

-- `assert_eq!(custody_bits[i], false)` for the `n` indices from `i` on.
unfoldable pub assert_clear : List Bool → ℕ → ℕ → Outcome (Unit {0})
assert_clear bits i zero = ok tt
assert_clear bits i (suc n) =
    index bits i >>= λ bit. if bit then panic else assert_clear bits (suc i) n

module _ (C : Config) (bls : BlsConfig) where
  unfoldable pub aggregate : Attestation → Attestation → Outcome Attestation
  unfolding or_bits assert_clear
  aggregate existing a = do
    bits ← or_bits existing.aggregation_bits 0 a.aggregation_bits
    custody ← or_bits existing.custody_bits 0 a.custody_bits
    assert_clear a.custody_bits 0 (length custody)
        >> ok (record existing {
          aggregation_bits = bits;
          custody_bits = custody;
          signature = bls.aggregate_signatures (existing.signature ∷ a.signature ∷ []);
        })

  -- The loop over the attestations of one root: the first without a duplicate takes the new one in,
  -- and else it is pushed.
  unfoldable pub push_into : List Attestation → Attestation → Outcome (List Attestation)
  unfolding has_duplicate aggregate
  push_into [] a = ok (a ∷ [])
  push_into (existing ∷ existings) a = do
    duplicate ← has_duplicate a.aggregation_bits 0 (length existing.aggregation_bits) false
    if duplicate
        then (push_into existings a >>= λ rest. ok (existing ∷ rest))
        else (aggregate existing a >>= λ aggregated. ok (aggregated ∷ existings))

  unfoldable pub hash_of : Attestation → Bytes
  hash_of a = C.hasher.attestation_root (record { att_data = a.att_data; custody_bit = false })

  -- `entry(hash).and_modify(…).or_insert(vec![attestation])`
  unfoldable pub push_entry : Bytes → AttestationPool → Attestation → Outcome AttestationPool
  unfolding push_into
  push_entry hash [] a = ok ((hash, a ∷ []) ∷ [])
  push_entry hash ((h, existings) ∷ pool) a =
      if bytes_eq h hash
      then (push_into existings a >>= λ pushed. ok ((h, pushed) ∷ pool))
      else (push_entry hash pool a >>= λ rest. ok ((h, existings) ∷ rest))

  unfoldable pub push : Attestation → AttestationPool → Outcome AttestationPool
  unfolding hash_of push_entry
  push a pool = push_entry (hash_of a) pool a

unfoldable pub pop : Bytes → AttestationPool → AttestationPool
pop key pool = keep (λ (h, existings). not (bytes_eq h key)) pool

-- The entries in the order of the map, each attestation with its root.
unfoldable pub iter : AttestationPool → List (Bytes × Attestation)
iter [] = []
iter ((h, existings) ∷ pool) = map (λ a. (h, a)) existings ++ iter pool
