-- ===== src/Executive/Assignment.antt =====
-- beacon/src/executive/assignment.rs and choice.rs.
use shasper.Prelude.{
  ℕ, ◌-◌, Option, none, some, List, [], ◌∷◌, ◌++◌, map, if◌then◌else◌, leb, contains, get_elem?,
  range_from, Bytes, add64,
}
use shasper.Types.{BeaconState, Attestation, BeaconBlock}
use shasper.Outcome.{Outcome, ok, ◌>>=◌, ◌>>◌, require, epoch_out_of_range}
use shasper.Config.{Config}
use shasper.Utils.{start_slot_of_epoch}
use shasper.Executive.Accessors.{
  current_epoch, active_validator_indices, committee_count_at_slot, beacon_committee,
  indexed_attestation,
}
use shasper.Executive.Operations.Registry.{find_pubkey}

pub record CommitteeAssignment : Type 0 where
  pub validators : List ℕ
  pub index : ℕ
  pub slot : ℕ

unfoldable pub validator_pubkey : BeaconState → ℕ → Option Bytes
validator_pubkey s i = elim (get_elem? s.validators i) [ none ↦ none | some v ↦ some v.pubkey ]

unfoldable pub validator_index : BeaconState → Bytes → Option ℕ
validator_index s pubkey = find_pubkey pubkey 0 s.validators

module _ (C : Config) where
  -- The inner loop, over the committee indices of a slot.
  unfoldable pub find_in_slot : BeaconState → ℕ → ℕ → List ℕ → Outcome (Option CommitteeAssignment)
  find_in_slot s validator slot [] = ok none
  find_in_slot s validator slot (i ∷ is) = beacon_committee C s slot i >>= λ committee.
      if contains committee validator
      then ok (some (record { validators = committee; index = i; slot = slot }))
      else find_in_slot s validator slot is

  -- The outer loop, over the slots of the epoch.
  unfoldable pub find_in_slots : BeaconState → ℕ → List ℕ → Outcome (Option CommitteeAssignment)
  find_in_slots s validator [] = ok none
  find_in_slots s validator (slot ∷ slots) =
      find_in_slot s validator slot (range_from 0 (committee_count_at_slot C s slot)) >>= λ found.
      elim found [ none ↦ find_in_slots s validator slots | some a ↦ ok (some a) ]

  unfoldable pub committee_assignment : BeaconState → ℕ → ℕ → Outcome (Option CommitteeAssignment)
  committee_assignment s epoch validator =
      let start = start_slot_of_epoch C epoch in
      require (leb epoch (add64 (current_epoch C s) 1)) epoch_out_of_range
      >> find_in_slots s validator (range_from start (add64 start C.slots_per_epoch - start))

  unfoldable pub justified_active_validators : BeaconState → List ℕ
  justified_active_validators s = active_validator_indices C s s.current_justified_checkpoint.epoch

  -- The votes of each attestation of a block.
  unfoldable pub vote_targets : BeaconState → List Attestation → Outcome (List (ℕ × Bytes))
  vote_targets s [] = ok []
  vote_targets s (a ∷ as') = do
    indexed ← indexed_attestation C s a
    rest ← vote_targets s as'
    ok (
        map (λ v. (v, indexed.att_data.target.root))
          (indexed.custody_bit_0_indices ++ indexed.custody_bit_1_indices)
        ++ rest)

  unfoldable pub block_vote_targets : BeaconState → BeaconBlock → Outcome (List (ℕ × Bytes))
  block_vote_targets s block = vote_targets s block.body.attestations
