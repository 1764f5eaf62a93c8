-- ===== src/Executive/Shape.antt =====
-- The shape of the state: the lengths that its types fix, and one balance to each validator. It is
-- kept by the state transition of beacon/src/executive/transition/mod.rs.
pub mod Run
use shasper.Prelude.{
  ℕ, ◌-◌, ◌≡◌, refl, sym, List, [], ◌∷◌, length, length-set, length-append, length-take, set, arith,
  Bool, inl, inr,
}
use shasper.Types.{BeaconState, Block, Validator, PendingAttestation, Checkpoint}
use shasper.Outcome.{ok, >>=-eq-ok, ok-injective}
use shasper.Config.{Config}
use shasper.Justifier.{Justifier, JustifierRegistry, process, justify, shift_bits}
use shasper.Justifier.Order.{outcome, process-outcome}
use shasper.Executive.Mutators.{add_slashing}
use shasper.Executive.Header.{add_eth1_vote, set_latest_header, mix_randao}
use shasper.Executive.Operations.Votes.{push_attestation}
use shasper.Executive.Operations.Registry.{add_validator}
use shasper.Executive.Epoch.Justification.{
  justified_state, with_justifier, justifier_of, process_justification_and_finalization,
}
use shasper.Executive.Epoch.Finality.{Justifies, justified_state-Justifies}
use shasper.Executive.Epoch.Finalize.{reset_eth1_votes, rotate, update_effective_balances}
use shasper.Executive.Keeps.{Keeps, commit-Keeps}
use shasper.Executive.Stable.{IsStable}

pub record IsShaped (C : Config) (s : BeaconState) : Type 0 where
  pub length-block_roots : length s.block_roots ≡ C.slots_per_historical_root
  pub length-state_roots : length s.state_roots ≡ C.slots_per_historical_root
  pub length-randao_mixes : length s.randao_mixes ≡ C.epochs_per_historical_vector
  pub length-slashings : length s.slashings ≡ C.epochs_per_slashings_vector
  pub length-justification_bits : length s.justification_bits ≡ 4
  pub length-balances : length s.balances ≡ length s.validators

length-update_effective_balances :
    (C : Config) (vs vs' : List Validator) (bs : List ℕ)
    → update_effective_balances C vs bs ≡ ok vs'
    → length vs' ≡ length vs
unfolding update_effective_balances
length-update_effective_balances C [] vs' bs e = rw (sym (ok-injective e)) refl
length-update_effective_balances C (v ∷ vs) vs' [] e = absurd (cc)
length-update_effective_balances C (v ∷ vs) vs' (b ∷ bs) e =
    let (rest, er, e') = >>=-eq-ok (update_effective_balances C vs bs) _ e in
    let ih = length-update_effective_balances C vs rest bs er in
    rw (sym (ok-injective e')) (omega (arith, ih))

module _ (C : Config) where
  push_attestation-IsShaped :
      (c : Bool) (a : PendingAttestation) (s : BeaconState)
      → IsShaped C s
      → IsShaped C (push_attestation c a s)
  unfolding push_attestation
  push_attestation-IsShaped Bool.true a s h = omega arith
  push_attestation-IsShaped Bool.false a s h = omega arith

  pub set_latest_header-IsShaped :
      (b : Block) (s : BeaconState) → IsShaped C s → IsShaped C (set_latest_header C b s)
  unfolding set_latest_header
  set_latest_header-IsShaped b s h = omega arith

  pub shape-IsStable : IsStable C (IsShaped C)
  unfolding add_slashing add_validator add_eth1_vote set_latest_header mix_randao rotate
      reset_eth1_votes
  shape-IsStable = record {
    at_validator = λ s i v h. omega (arith, length-set {0} s.validators i v);
    at_balance = λ s i b h. omega (arith, length-set {0} s.balances i b);
    at_slashing = λ b s h. omega (arith, length-set {0} s.slashings);
    at_new = λ d s h. omega (arith, length-append {0} s.validators, length-append {0} s.balances);
    at_deposit_index = λ s n h. omega arith;
    at_vote = λ body s h. omega arith;
    at_eth1 = λ s d h. omega arith;
    at_randao = λ body s h. omega (arith, length-set {0} s.randao_mixes);
    at_attestation = push_attestation-IsShaped;
    at_effective = λ s vs e h. omega (
      arith,
      length-update_effective_balances C s.validators vs s.balances e,
      length-set {0} s.slashings,
      length-set {0} s.randao_mixes,
    );
  }

  length-outcome :
      (j : Justifier Checkpoint) (previous current : Checkpoint) (p c : Bool)
      → length j.justification_bits ≡ 4
      → length (outcome (λ c. c.epoch) j previous current p c).justification_bits ≡ 4
  unfolding outcome justify shift_bits
  length-outcome j previous current p c h =
      let bits = j.justification_bits in
      let shifted = shift_bits bits in
      ground (
        arith,
        length-take (length bits - 1) bits,
        length-set shifted 1 Bool.true,
        length-set shifted 0 Bool.true,
        length-set (set shifted 1 Bool.true) 0 Bool.true,
      )

  length-process :
      (j j' : Justifier Checkpoint) (previous current : Checkpoint)
      (registry : JustifierRegistry Checkpoint)
      → length j.justification_bits ≡ 4
      → process (λ c. c.epoch) j previous current registry ≡ ok j'
      → length j'.justification_bits ≡ 4
  length-process j j' previous current registry h ran =
      let (p, c, same) = process-outcome (λ c. c.epoch) j j' previous current registry ran in
      rw same (length-outcome j previous current p c h)

  justified_state-IsShaped :
      (s s' : BeaconState) → IsShaped C s → justified_state C s ≡ ok s' → IsShaped C s'
  unfolding Justifies with_justifier justifier_of
  justified_state-IsShaped s s' h e = elim (justified_state-Justifies C s s' e) [
    | inl same ↦ rw same h
    | inr (late, (previous, current, j, ran, same)) ↦
        let kept : length j.justification_bits ≡ 4 =
          length-process (justifier_of s) j _ _ _ h.length-justification_bits ran in
        rw same (omega (arith, kept))
  ]

  pub shape_justification : Keeps (IsShaped C) (process_justification_and_finalization C)
  unfolding process_justification_and_finalization
  shape_justification = commit-Keeps _ justified_state-IsShaped
