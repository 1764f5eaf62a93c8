-- ===== src/Executive/Operations/Slashings.antt =====
-- proposer_slashing.rs and attester_slashing.rs of
-- beacon/src/executive/transition/per_block/operations.
use shasper.Prelude.{
  ℕ, Bool, true, false, not, none, some, List, [], ◌∷◌, ◌++◌, if◌then◌else◌, ◌==◌, ltb, length,
  sort,
}
use shasper.Types.{
  BeaconState, BeaconBlockHeader, ProposerSlashing, AttesterSlashing, is_slashable,
  is_slashable_data, header_eq, signing_header,
}
use shasper.Outcome.{
  index, proposer_slashing_invalid_slot, proposer_slashing_same_header,
  proposer_slashing_invalid_proposer_index, proposer_slashing_already_slashed,
  proposer_slashing_invalid_signature, attester_slashing_not_slashable,
  attestation_invalid_signature, attester_slashing_empty_indices,
}
use shasper.Config.{Config, BlsConfig, domain_beacon_proposer}
use shasper.Utils.{epoch_of_slot}
use shasper.Executive.Accessors.{current_epoch, domain}
use shasper.Executive.Predicates.{is_valid_indexed_attestation}
use shasper.Executive.Mutators.{slash_validator}
use shasper.Executive.Epoch.Helpers.{push_new}
use shasper.Executive.Monad.{M, ◌>>=◌, ◌>>◌, pure, reads, gets, require}

module _ (C : Config) (B : BlsConfig) where
  -- The signature of one header of the pair.
  unfoldable pub is_header_signed : List ℕ → BeaconBlockHeader → BeaconState → Bool
  is_header_signed pubkey header s =
      B.verify pubkey (C.hasher.header_root (signing_header header)) header.signature
        (domain C s domain_beacon_proposer (some (epoch_of_slot C header.slot)))

  unfoldable pub process_proposer_slashing : ProposerSlashing → M (Unit {0})
  process_proposer_slashing slashing = do
    require (slashing.header_1.slot == slashing.header_2.slot) proposer_slashing_invalid_slot
    require (not (header_eq slashing.header_1 slashing.header_2)) proposer_slashing_same_header
    known ← gets (λ s. ltb slashing.proposer_index (length s.validators))
    require known proposer_slashing_invalid_proposer_index
    proposer ← reads (λ s. index s.validators slashing.proposer_index)
    epoch ← gets (current_epoch C)
    require (is_slashable proposer epoch) proposer_slashing_already_slashed
    signed_1 ← gets (is_header_signed proposer.pubkey slashing.header_1)
    require signed_1 proposer_slashing_invalid_signature
    signed_2 ← gets (is_header_signed proposer.pubkey slashing.header_2)
    require signed_2 proposer_slashing_invalid_signature
    slash_validator C slashing.proposer_index none

  -- The loop over the indices: whether any validator was slashed.
  unfoldable pub slash_each : List ℕ → Bool → M Bool
  slash_each [] slashed_any = pure slashed_any
  slash_each (i ∷ is) slashed_any = reads (λ s. index s.validators i) >>= λ v.
      gets (current_epoch C) >>= λ epoch.
      if is_slashable v epoch
      then (slash_validator C i none >>= λ _. slash_each is true)
      else slash_each is slashed_any

  unfoldable pub process_attester_slashing : AttesterSlashing → M (Unit {0})
  process_attester_slashing slashing = do
    let attestation_1 = slashing.attestation_1
    let attestation_2 = slashing.attestation_2
    require (is_slashable_data attestation_1.att_data attestation_2.att_data)
        attester_slashing_not_slashable
    valid_1 ← reads (λ s. is_valid_indexed_attestation C B s attestation_1)
    require valid_1 attestation_invalid_signature
    valid_2 ← reads (λ s. is_valid_indexed_attestation C B s attestation_2)
    require valid_2 attestation_invalid_signature
    let full = push_new [] (
        (attestation_1.custody_bit_0_indices ++ attestation_1.custody_bit_1_indices)
        ++ (attestation_2.custody_bit_0_indices ++ attestation_2.custody_bit_1_indices))
    slashed_any ← slash_each (sort full) false
    require slashed_any attester_slashing_empty_indices
