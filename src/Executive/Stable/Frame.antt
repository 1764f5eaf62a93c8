-- ===== src/Executive/Stable/Frame.antt =====
-- Only justification and the loop over the slots write the slot, the checkpoints and the bits: what
-- is said of those alone is stable.
use shasper.Prelude.{ℕ, Bool, true, false}
use shasper.Types.{BeaconState, Checkpoint, PendingAttestation}
use shasper.Config.{Config}
use shasper.Justifier.{Justifier}
use shasper.Executive.Mutators.{add_slashing}
use shasper.Executive.Header.{add_eth1_vote, set_latest_header, mix_randao}
use shasper.Executive.Operations.Votes.{push_attestation}
use shasper.Executive.Operations.Registry.{add_validator}
use shasper.Executive.Epoch.Justification.{justifier_of}
use shasper.Executive.Epoch.Finalize.{reset_eth1_votes, rotate}
use shasper.Executive.Stable.{IsStable}

abbrev pub Sees : (ℕ → Justifier Checkpoint → Type 0) → BeaconState → Type 0
Sees Q s = Q s.slot (justifier_of s)

module _ (C : Config) (Q : ℕ → Justifier Checkpoint → Type 0) where
  push_attestation-Sees :
      (c : Bool) (a : PendingAttestation) (s : BeaconState)
      → Sees Q s
      → Sees Q (push_attestation c a s)
  unfolding push_attestation justifier_of
  push_attestation-Sees true a s h = h
  push_attestation-Sees false a s h = h

  pub frame-IsStable : IsStable C (Sees Q)
  unfolding add_slashing add_validator add_eth1_vote set_latest_header mix_randao rotate
      reset_eth1_votes justifier_of
  frame-IsStable = record {
    at_validator = λ s i v h. h;
    at_balance = λ s i b h. h;
    at_slashing = λ b s h. h;
    at_new = λ d s h. h;
    at_deposit_index = λ s k h. h;
    at_vote = λ body s h. h;
    at_eth1 = λ s d h. h;
    at_randao = λ body s h. h;
    at_attestation = push_attestation-Sees;
    at_effective = λ s vs e h. h;
  }
