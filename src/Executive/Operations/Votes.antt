-- ===== src/Executive/Operations/Votes.antt =====
-- attestation.rs of beacon/src/executive/transition/per_block/operations.
use shasper.Prelude.{
  Bool, true, false, ◌&&◌, ◌||◌, not, [], ◌∷◌, ◌++◌, ◌==◌, ltb, leb, add64, sub64,
}
use shasper.Types.{BeaconState, Attestation, PendingAttestation, checkpoint_eq}
use shasper.Outcome.{
  attestation_incorrect_crosslink_data, attestation_incorrect_justified_epoch_or_block_root,
  attestation_submitted_too_quickly, attestation_invalid_data, attestation_invalid_signature,
}
use shasper.Config.{Config, BlsConfig}
use shasper.Executive.Accessors.{
  current_epoch, previous_epoch, committee_count_at_slot, beacon_proposer_index,
  indexed_attestation,
}
use shasper.Executive.Predicates.{is_valid_indexed_attestation}
use shasper.Executive.Monad.{M, ◌>>=◌, ◌>>◌, reads, gets, modify, require}

-- The push at the end, to the attestations of the current or of the previous epoch.
unfoldable pub push_attestation : Bool → PendingAttestation → BeaconState → BeaconState
push_attestation true pending s = record s {
  current_epoch_attestations = s.current_epoch_attestations ++ pending ∷ [];
}
push_attestation false pending s = record s {
  previous_epoch_attestations = s.previous_epoch_attestations ++ pending ∷ [];
}

module _ (C : Config) (B : BlsConfig) where
  unfoldable pub process_attestation : Attestation → M (Unit {0})
  process_attestation attestation = do
    let att_data = attestation.att_data
    committee_count ← gets (λ s. committee_count_at_slot C s att_data.slot)
    require (ltb att_data.index committee_count) attestation_incorrect_crosslink_data
    current ← gets (current_epoch C)
    previous ← gets (previous_epoch C)
    require ((att_data.target.epoch == current) || (att_data.target.epoch == previous))
        attestation_incorrect_justified_epoch_or_block_root
    slot ← gets (λ s. s.slot)
    require
        (leb (add64 att_data.slot C.min_attestation_inclusion_delay) slot
          && leb slot (add64 att_data.slot C.slots_per_epoch))
        attestation_submitted_too_quickly
    proposer_index ← reads (beacon_proposer_index C)
    let pending : PendingAttestation = record {
      aggregation_bits = attestation.aggregation_bits;
      att_data = att_data;
      inclusion_delay = sub64 slot att_data.slot;
      proposer_index = proposer_index;
    }
    let push_current = att_data.target.epoch == current
    justified ← gets (λ s. s.current_justified_checkpoint)
    require (not push_current || checkpoint_eq att_data.source justified) attestation_invalid_data
    indexed ← reads (λ s. indexed_attestation C s attestation)
    valid ← reads (λ s. is_valid_indexed_attestation C B s indexed)
    require valid attestation_invalid_signature
    modify (push_attestation push_current pending)
