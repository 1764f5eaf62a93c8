-- ===== src/Executive/Shape/Run.antt =====
-- The shape of the state over whole runs of beacon/src/executive/transition/mod.rs.
use shasper.Prelude.{ℕ, arith, length-set}
use shasper.Types.{BeaconState, Block}
use shasper.Config.{Config, BlsConfig}
use shasper.Executive.Transition.{process_slot, process_slots, state_transition}
use shasper.Executive.Shape.{
  IsShaped, set_latest_header-IsShaped, shape-IsStable, shape_justification,
}
use shasper.Executive.Stable.Slots.{stable_slots, stable_transition}

module _ (C : Config) where
  process_slot-IsShaped : (s : BeaconState) → IsShaped C s → IsShaped C (process_slot C s)
  unfolding process_slot
  process_slot-IsShaped s h =
      omega (arith, length-set {0} s.state_roots, length-set {0} s.block_roots)

  at_slot-IsShaped : (s : BeaconState) (n : ℕ) → IsShaped C s → IsShaped C (record s { slot = n })
  at_slot-IsShaped s n h = omega arith

  -- However `process_slots` ends, with success, an error or a panic, each list of fixed length still
  -- has the length of its type, and each validator still has its balance.
  pub process_slots-IsShaped :
      (slot : ℕ) (s : BeaconState) → IsShaped C s → IsShaped C (process_slots C slot s).1
  process_slots-IsShaped slot s h =
      (stable_slots C (shape-IsStable C) (shape_justification C) process_slot-IsShaped
          at_slot-IsShaped slot).keeps
        s h

  -- The same of `state_transition`, whatever the block and whatever the signature scheme accepts.
  pub state_transition-IsShaped :
      (B : BlsConfig) (block : Block) (s : BeaconState)
      → IsShaped C s
      → IsShaped C (state_transition C B block s).1
  state_transition-IsShaped B block s h =
      (stable_transition C (shape-IsStable C) (shape_justification C) process_slot-IsShaped
          at_slot-IsShaped (set_latest_header-IsShaped C) B block).keeps
        s h
