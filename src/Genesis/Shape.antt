-- ===== src/Genesis/Shape.antt =====
-- The state that beacon/src/genesis.rs builds is well formed.
use shasper.Prelude.{
  ℕ, suc, ◌≡◌, refl, ap, sym, subst, List, [], ◌∷◌, map, length, length-replicate, arith,
}
use shasper.Types.{BeaconState, Eth1Data, Deposit}
use shasper.Outcome.{Outcome, ok, err, panic, diverge, >>=-eq-ok, ok-injective}
use shasper.Config.{Config, BlsConfig}
use shasper.Genesis.{leaves, initial_state, activate_at_genesis, genesis_beacon_state}
use shasper.Executive.Monad.{for_each}
use shasper.Executive.Operations.Registry.{process_deposit}
use shasper.Executive.Epoch.Justification.{justifier_of}
use shasper.Executive.Keeps.{for_each-Keeps}
use shasper.Executive.Stable.Frame.{frame-IsStable}
use shasper.Executive.Stable.Blocks.{stable_deposit}
use shasper.Executive.Shape.{IsShaped, shape-IsStable}
use shasper.Executive.Transition.Finality.{InOrder}

length-map {ℓ κ} :
    {A : Type ℓ} {B : Type κ} (f : A → B) (xs : List A) → length (map f xs) ≡ length xs
length-map f [] = refl
length-map f (x ∷ xs) = ap suc (length-map f xs)

leaves-inversion :
    (r : Outcome (Unit {0}) × BeaconState) (s : BeaconState) → leaves r ≡ ok s → r.1 ≡ s
leaves-inversion (ok _, t) s e = ok-injective e
leaves-inversion (err x, t) s e = absurd (cc)
leaves-inversion (panic, t) s e = absurd (cc)
leaves-inversion (diverge, t) s e = absurd (cc)

module _ (C : Config) (B : BlsConfig) where
  initial_state-IsShaped : (time : ℕ) (d : Eth1Data) → IsShaped C (initial_state C time d)
  unfolding initial_state
  initial_state-IsShaped time d = record {
    length-block_roots = length-replicate _ _;
    length-state_roots = length-replicate _ _;
    length-randao_mixes = length-replicate _ _;
    length-slashings = length-replicate _ _;
    length-justification_bits = refl;
    length-balances = refl;
  }

  -- If the genesis succeeds, whatever the deposits, its state has the lengths of its types and a balance
  -- for each validator, is at slot 0, and has its checkpoints in order.
  pub genesis_beacon_state-IsShaped :
      (deposits : List Deposit) (time : ℕ) (d : Eth1Data) (s : BeaconState)
      → genesis_beacon_state C B deposits time d ≡ ok s
      → IsShaped C s × (s.slot ≡ 0) × InOrder C s
  unfolding genesis_beacon_state initial_state justifier_of
  genesis_beacon_state-IsShaped deposits time d s e =
      let start = initial_state C time d in
      let run = for_each deposits (process_deposit C B) start in
      let (t, et, es) = >>=-eq-ok (leaves run) _ e in
      let at : run.1 ≡ t = leaves-inversion run t et in
      let shaped =
        (for_each-Keeps deposits _ (λ x. stable_deposit C (shape-IsStable C) B x)).keeps start
          (initial_state-IsShaped time d) in
      let frame = frame-IsStable C (λ n j. (n ≡ 0) × (j ≡ justifier_of start)) in
      let framed =
        (for_each-Keeps deposits _ (λ x. stable_deposit C frame B x)).keeps start (refl, refl) in
      let t-IsShaped : IsShaped C t = subst (IsShaped C) at shaped in
      let (slot, j) : (t.slot ≡ 0) × (justifier_of t ≡ justifier_of start) =
        subst (λ x. (x.slot ≡ 0) × (justifier_of x ≡ justifier_of start)) at framed in
      let f = ap (λ x. x.finalized_checkpoint.epoch) j in
      let p = ap (λ x. x.previous_justified_checkpoint.epoch) j in
      let c = ap (λ x. x.current_justified_checkpoint.epoch) j in
      rw (sym (ok-injective es)) (
        omega (arith, length-map (activate_at_genesis C) t.validators),
        slot,
        omega (arith, f, p, c),
      )
