-- ===== src/Executive/Predicates.antt =====
-- beacon/src/executive/helpers/predicates.rs.
use shasper.Prelude.{
  ℕ, ◌+◌, Bool, true, false, not, ◌&&◌, some, List, [], ◌∷◌, if◌then◌else◌, ltb, leb, length, all,
  contains, Bytes,
}
use shasper.Types.{BeaconState, Validator, IndexedAttestation}
use shasper.Outcome.{Outcome, ok, ◌>>=◌, index, traverse}
use shasper.Config.{Config, BlsConfig, domain_beacon_attester}
use shasper.Executive.Accessors.{domain}

-- `windows(2).all(|w| w[0] <= w[1])`
abbrev pub is_sorted : List ℕ → Bool
is_sorted [] = true
is_sorted (x ∷ []) = true
is_sorted (x ∷ y ∷ ys) = if leb x y then is_sorted (y ∷ ys) else false

-- The early returns of `is_valid_indexed_attestation`: true where none of them is taken.
unfoldable pub has_valid_indices : Config → IndexedAttestation → Bool
has_valid_indices C indexed_attestation =
    let bit_0_indices = indexed_attestation.custody_bit_0_indices in
    let bit_1_indices = indexed_attestation.custody_bit_1_indices in
    not (ltb 0 (length bit_1_indices))
    && (leb (length bit_0_indices + length bit_1_indices) C.max_validators_per_committee
        && (all (λ i. not (contains bit_1_indices i)) bit_0_indices
            && (is_sorted bit_0_indices && is_sorted bit_1_indices)))

-- The keys of the validators at these indices.
unfoldable pub pubkeys_at : List Validator → List ℕ → Outcome (List Bytes)
pubkeys_at validators indices = traverse (λ i. index validators i >>= λ v. ok v.pubkey) indices

module _ (C : Config) (B : BlsConfig) where
  unfoldable pub is_valid_indexed_attestation : BeaconState → IndexedAttestation → Outcome Bool
  is_valid_indexed_attestation s indexed_attestation =
      if not (has_valid_indices C indexed_attestation) then ok false else (do
        keys_0 ← pubkeys_at s.validators indexed_attestation.custody_bit_0_indices
        keys_1 ← pubkeys_at s.validators indexed_attestation.custody_bit_1_indices
        ok (
            B.verify_multiple (B.aggregate_pubkeys keys_0 ∷ B.aggregate_pubkeys keys_1 ∷ [])
              (C.hasher.attestation_root
                  (record { att_data = indexed_attestation.att_data; custody_bit = false })
                ∷ C.hasher.attestation_root
                    (record { att_data = indexed_attestation.att_data; custody_bit = true })
                ∷ [])
              indexed_attestation.signature
              (domain C s domain_beacon_attester (some indexed_attestation.att_data.target.epoch))))
