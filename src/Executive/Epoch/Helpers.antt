-- ===== src/Executive/Epoch/Helpers.antt =====
-- beacon/src/executive/transition/per_epoch/helpers.rs.
use shasper.Prelude.{ℕ, List, [], ◌∷◌, ◌++◌, if◌then◌else◌, ◌==◌, keep, contains, sort, bytes_eq}
use shasper.Types.{BeaconState, Validator, PendingAttestation}
use shasper.Outcome.{Outcome, ok, err, ◌>>=◌, index, epoch_out_of_range}
use shasper.Config.{Config}
use shasper.Executive.Accessors.{
  current_epoch, previous_epoch, block_root, block_root_at_slot, attesting_indices, total_balance,
}

-- `if !ret.contains(&index) { ret.push(index) }` for each index.
unfoldable pub push_new : List ℕ → List ℕ → List ℕ
push_new ret [] = ret
push_new ret (i ∷ is) = push_new (if contains ret i then ret else ret ++ i ∷ []) is

-- `ret.retain(|index| !self.validators[*index].slashed)`.
unfoldable pub retain_unslashed : List Validator → List ℕ → Outcome (List ℕ)
retain_unslashed validators [] = ok []
retain_unslashed validators (i ∷ is) = do
  v ← index validators i
  rest ← retain_unslashed validators is
  ok (if v.slashed then rest else i ∷ rest)

module _ (C : Config) where
  unfoldable pub matching_source_attestations : BeaconState → ℕ → Outcome (List PendingAttestation)
  matching_source_attestations s epoch =
      if epoch == current_epoch C s
      then ok s.current_epoch_attestations
      else if epoch == previous_epoch C s
      then ok s.previous_epoch_attestations
      else err epoch_out_of_range

  unfoldable pub matching_target_attestations : BeaconState → ℕ → Outcome (List PendingAttestation)
  matching_target_attestations s epoch = do
    root ← block_root C s epoch
    attestations ← matching_source_attestations s epoch
    ok (keep (λ a. bytes_eq a.att_data.target.root root) attestations)

  -- The attestations whose head is the block at their slot; a slot out of range ends it.
  unfoldable pub keep_matching_head :
      BeaconState → List PendingAttestation → Outcome (List PendingAttestation)
  keep_matching_head s [] = ok []
  keep_matching_head s (a ∷ as') = do
    root ← block_root_at_slot C s a.att_data.slot
    rest ← keep_matching_head s as'
    ok (if bytes_eq a.att_data.beacon_block_root root then a ∷ rest else rest)

  unfoldable pub matching_head_attestations : BeaconState → ℕ → Outcome (List PendingAttestation)
  matching_head_attestations s epoch =
      matching_source_attestations s epoch >>= λ attestations. keep_matching_head s attestations

  -- The loop over the attestations of `unslashed_attesting_indices`.
  unfoldable pub collect_indices : BeaconState → List ℕ → List PendingAttestation → Outcome (List ℕ)
  collect_indices s ret [] = ok ret
  collect_indices s ret (a ∷ as') =
      attesting_indices C s a.att_data a.aggregation_bits >>= λ indices.
      collect_indices s (push_new ret indices) as'

  unfoldable pub unslashed_attesting_indices :
      BeaconState → List PendingAttestation → Outcome (List ℕ)
  unslashed_attesting_indices s attestations = do
    ret ← collect_indices s [] attestations
    unslashed ← retain_unslashed s.validators ret
    ok (sort unslashed)

  unfoldable pub attesting_balance : BeaconState → List PendingAttestation → Outcome ℕ
  attesting_balance s attestations =
      unslashed_attesting_indices s attestations >>= λ indices. total_balance C s indices
