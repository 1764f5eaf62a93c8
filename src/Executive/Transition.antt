-- ===== src/Executive/Transition.antt =====
-- beacon/src/executive/transition: mod.rs, and mod.rs of per_block.
pub mod Slot
pub mod History
pub mod Ends
pub mod Finality
use shasper.Prelude.{ℕ, zero, suc, ◌-◌, ◌%◌, if◌then◌else◌, ◌==◌, ltb, leb, set, bytes_eq, add64}
use shasper.Types.{BeaconState, Block, zero_hash, signing_header}
use shasper.Outcome.{ok, diverge, slot_out_of_range, block_state_root_invalid}
use shasper.Config.{Config, BlsConfig}
use shasper.Executive.Header.{process_block_header, process_randao, process_eth1_data}
use shasper.Executive.Operations.{process_operations}
use shasper.Executive.Epoch.{process_epoch}
use shasper.Executive.Monad.{M, ◌>>=◌, ◌>>◌, gets, modify, require, when}

module _ (C : Config) where
  unfoldable pub process_slot : BeaconState → BeaconState
  process_slot s =
      let slot = s.slot % C.slots_per_historical_root in
      let previous_state_root = C.hasher.state_root s in
      let header = s.latest_block_header in
      let sealed = record header {
        state_root =
            if bytes_eq header.state_root zero_hash then previous_state_root else header.state_root;
      } in
      record s {
        state_roots = set s.state_roots slot previous_state_root;
        latest_block_header = sealed;
        block_roots = set s.block_roots slot (C.hasher.header_root (signing_header sealed));
      }

  -- One round of the loop of `process_slots`.
  unfoldable pub advance_slot : M (Unit {0})
  advance_slot = do
    modify process_slot
    slot ← gets (λ s. s.slot)
    when (add64 slot 1 % C.slots_per_epoch == 0) (process_epoch C)
    modify λ s. record s { slot = add64 s.slot 1 }

  unfoldable pub slots_loop : ℕ → ℕ → M (Unit {0})
  slots_loop zero target s = (diverge, s)
  slots_loop (suc fuel) target s =
      let rest = (advance_slot >> slots_loop fuel target) s in
      if ltb s.slot target then rest else (ok tt, s)

  -- Each round brings the slot one closer to the target.
  unfoldable pub process_slots : ℕ → M (Unit {0})
  process_slots slot = do
    current ← gets (λ s. s.slot)
    require (leb current slot) slot_out_of_range
    slots_loop (suc (slot - current)) slot

module _ (C : Config) (B : BlsConfig) where
  unfoldable pub process_block : Block → M (Unit {0})
  process_block block = do
    process_block_header C B block
    process_randao C B block.body
    process_eth1_data C block.body
    process_operations C B block.body

  unfoldable pub state_transition : Block → M (Unit {0})
  state_transition block = do
    process_slots C block.slot
    process_block block
    computed ← gets C.hasher.state_root
    require (bytes_eq block.state_root computed) block_state_root_invalid
