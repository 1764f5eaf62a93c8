-- ===== src/Executive/Stable.antt =====
-- Properties of the state that every write of the handlers keeps. For such a property, each handler
-- keeps it, however it ends.
pub mod Epochs
pub mod Blocks
pub mod Slots
pub mod Frame
use shasper.Prelude.{ℕ, ◌≡◌, List, Option, Bool, some, get_elem?, set}
use shasper.Types.{
  BeaconState, Validator, BeaconBlockBody, Block, DepositData, Eth1Data, PendingAttestation,
}
use shasper.Outcome.{ok}
use shasper.Config.{Config}
use shasper.Executive.Monad.{modify, modify_validator, modify_balance}
use shasper.Executive.Mutators.{
  increase_balance, decrease_balance, initiate_validator_exit, slash_rewards, slash_validator,
  add_slashing,
}
use shasper.Executive.Header.{add_eth1_vote, set_latest_header, mix_randao}
use shasper.Executive.Operations.Votes.{push_attestation}
use shasper.Executive.Operations.Registry.{add_validator}
use shasper.Executive.Epoch.Finalize.{reset_eth1_votes, rotate, update_effective_balances}
use shasper.Executive.Keeps.{
  Keeps, keeps_rules, modify-Keeps, modify_validator-Keeps, modify_balance-Keeps,
}

-- One field for each write to the state, the checkpoints, the slot and the latest header apart.
pub record IsStable (C : Config) (P : BeaconState → Type 0) : Type 0 where
  pub at_validator :
      (s : BeaconState) (i : ℕ) (v : Validator)
      → P s
      → P (record s { validators = set s.validators i v })
  pub at_balance :
      (s : BeaconState) (i b : ℕ) → P s → P (record s { balances = set s.balances i b })
  pub at_slashing : (b : ℕ) (s : BeaconState) → P s → P (add_slashing C b s)
  pub at_new : (d : DepositData) (s : BeaconState) → P s → P (add_validator C d s)
  pub at_deposit_index : (s : BeaconState) (n : ℕ) → P s → P (record s { eth1_deposit_index = n })
  pub at_vote : (body : BeaconBlockBody) (s : BeaconState) → P s → P (add_eth1_vote body s)
  pub at_eth1 : (s : BeaconState) (d : Eth1Data) → P s → P (record s { eth1_data = d })
  pub at_randao : (body : BeaconBlockBody) (s : BeaconState) → P s → P (mix_randao C body s)
  pub at_attestation :
      (c : Bool) (a : PendingAttestation) (s : BeaconState) → P s → P (push_attestation c a s)
  pub at_effective :
      (s : BeaconState) (vs : List Validator)
      → update_effective_balances C s.validators s.balances ≡ ok vs
      → P s
      → P (rotate C (record (reset_eth1_votes C s) { validators = vs }))

module _ (C : Config) {P : BeaconState → Type 0} (st : IsStable C P) where
  pub stable_validator : (i : ℕ) (f : Validator → Validator) → Keeps P (modify_validator i f)
  stable_validator i f = modify_validator-Keeps i f (λ s v h e. st.at_validator s i (f v) h)

  stable_balance : (i : ℕ) (f : ℕ → ℕ) → Keeps P (modify_balance i f)
  stable_balance i f = modify_balance-Keeps i f (λ s b h e. st.at_balance s i (f b) h)

  pub stable_increase : (i delta : ℕ) → Keeps P (increase_balance i delta)
  unfolding increase_balance
  stable_increase i delta = stable_balance i _

  pub stable_decrease : (i delta : ℕ) → Keeps P (decrease_balance i delta)
  unfolding decrease_balance
  stable_decrease i delta = stable_balance i _

  pub stable_exit : (i : ℕ) → Keeps P (initiate_validator_exit C i)
  unfolding initiate_validator_exit
  stable_exit i = search (keeps_rules, stable_validator) depth 9

  stable_slashing : (balance : ℕ) → Keeps P (modify (add_slashing C balance))
  stable_slashing balance = modify-Keeps _ (st.at_slashing balance)

  stable_slash_rewards : (i : ℕ) (w : Option ℕ) → Keeps P (slash_rewards C i w)
  unfolding slash_rewards
  stable_slash_rewards i w =
      search (keeps_rules, stable_slashing, stable_increase, stable_decrease) depth 30

  pub stable_slash : (i : ℕ) (w : Option ℕ) → Keeps P (slash_validator C i w)
  unfolding slash_validator
  stable_slash i w =
      search (keeps_rules, stable_validator, stable_exit, stable_slash_rewards) depth 30
