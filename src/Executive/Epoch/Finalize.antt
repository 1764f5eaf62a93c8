-- ===== src/Executive/Epoch/Finalize.antt =====
-- beacon/src/executive/transition/per_epoch/finalize.rs.
use shasper.Prelude.{
  ℕ, ◌-◌, ◌/◌, ◌%◌, min, ◌||◌, List, [], ◌∷◌, ◌++◌, if◌then◌else◌, ◌==◌, ltb, set, add64, mul64,
}
use shasper.Types.{BeaconState, Validator}
use shasper.Outcome.{Outcome, ok, panic, ◌>>=◌}
use shasper.Config.{Config}
use shasper.Executive.Accessors.{current_epoch, randao_mix}
use shasper.Executive.Monad.{M, commit}

module _ (C : Config) where
  -- The effective balance follows the balance with hysteresis.
  unfoldable pub update_effective_balance : Validator → ℕ → Validator
  update_effective_balance v balance =
      let half_increment = C.effective_balance_increment / 2 in
      if ltb balance v.effective_balance
        || ltb (add64 v.effective_balance (mul64 3 half_increment)) balance
      then record v {
        effective_balance =
            min (balance - balance % C.effective_balance_increment) C.max_effective_balance;
      }
      else v

  -- The loop over the registry; a validator with no balance is a panic.
  unfoldable pub update_effective_balances : List Validator → List ℕ → Outcome (List Validator)
  update_effective_balances [] balances = ok []
  update_effective_balances (v ∷ vs) [] = panic
  update_effective_balances (v ∷ vs) (b ∷ bs) =
      update_effective_balances vs bs >>= λ rest. ok (update_effective_balance v b ∷ rest)

  -- What follows the loop.
  unfoldable pub rotate : BeaconState → BeaconState
  rotate s =
      let epoch = current_epoch C s in
      let next_epoch = add64 epoch 1 in
      let batch_root =
        C.hasher.historical_root
          (record { block_roots = s.block_roots; state_roots = s.state_roots }) in
      record s {
        slashings = set s.slashings (next_epoch % C.epochs_per_slashings_vector) 0;
        randao_mixes =
            set s.randao_mixes (next_epoch % C.epochs_per_historical_vector) (randao_mix C s epoch);
        historical_roots =
            if next_epoch % (C.slots_per_historical_root / C.slots_per_epoch) == 0
            then s.historical_roots ++ batch_root ∷ []
            else s.historical_roots;
        previous_epoch_attestations = s.current_epoch_attestations;
        current_epoch_attestations = [];
      }

  unfoldable pub reset_eth1_votes : BeaconState → BeaconState
  reset_eth1_votes s = record s {
    eth1_data_votes =
        if add64 s.slot 1 % C.slots_per_eth1_voting_period == 0 then [] else s.eth1_data_votes;
  }

  unfoldable pub process_final_updates : M (Unit {0})
  process_final_updates = commit λ s.
      update_effective_balances s.validators s.balances >>= λ validators.
      ok (rotate (record (reset_eth1_votes s) { validators = validators }))
