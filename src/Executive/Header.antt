-- ===== src/Executive/Header.antt =====
-- beacon/src/executive/transition/per_block: header.rs, randao.rs and eth1.rs.
use shasper.Prelude.{
  ℕ, ◌*◌, ◌%◌, Bool, not, none, some, List, [], ◌∷◌, ◌++◌, if◌then◌else◌, ◌==◌, ltb, count, set,
  replicate, bytes_eq, bytes_xor,
}
use shasper.Types.{
  BeaconState, BeaconBlockBody, Block, zero_hash, signing_header, unsealed, eth1_data_eq,
}
use shasper.Outcome.{
  index, block_slot_invalid, block_previous_root_invalid, block_proposer_slashed,
  block_signature_invalid, randao_signature_invalid,
}
use shasper.Config.{Config, BlsConfig, domain_beacon_proposer, domain_randao}
use shasper.Utils.{hash}
use shasper.Executive.Accessors.{current_epoch, randao_mix, beacon_proposer_index, domain}
use shasper.Executive.Monad.{M, ◌>>=◌, ◌>>◌, reads, gets, modify, require}

-- The vote is counted before it decides.
unfoldable pub add_eth1_vote : BeaconBlockBody → BeaconState → BeaconState
add_eth1_vote body s = record s { eth1_data_votes = s.eth1_data_votes ++ body.eth1_data ∷ [] }

module _ (C : Config) where
  unfoldable pub process_eth1_data : BeaconBlockBody → M (Unit {0})
  process_eth1_data body = do
    modify (add_eth1_vote body)
    modify λ s. record s {
      eth1_data =
          if ltb C.slots_per_eth1_voting_period
            (count (λ d. eth1_data_eq d body.eth1_data) s.eth1_data_votes * 2)
          then body.eth1_data
          else s.eth1_data;
    }

  unfoldable pub set_latest_header : Block → BeaconState → BeaconState
  set_latest_header block s = record s {
    latest_block_header = record {
      slot = block.slot;
      parent_root = block.parent_root;
      state_root = zero_hash;
      body_root = C.hasher.body_root block.body;
      signature = replicate 96 0;
    };
  }

  unfoldable pub mix_randao : BeaconBlockBody → BeaconState → BeaconState
  mix_randao body s =
      let epoch = current_epoch C s in
      record s {
        randao_mixes =
            set s.randao_mixes (epoch % C.epochs_per_historical_vector)
              (bytes_xor (randao_mix C s epoch) (hash C body.randao_reveal));
      }

module _ (C : Config) (B : BlsConfig) where
  -- Whether the block has no signature, or that of the proposer.
  unfoldable pub is_signed_by : Block → List ℕ → BeaconState → Bool
  is_signed_by block pubkey s = elim block.signature [
    | none ↦ Bool.true
    | some signature ↦
        B.verify pubkey (C.hasher.block_root (unsealed block)) signature
          (domain C s domain_beacon_proposer none)
  ]

  unfoldable pub process_block_header : Block → M (Unit {0})
  process_block_header block = do
    slot ← gets (λ s. s.slot)
    require (block.slot == slot) block_slot_invalid
    latest ← gets (λ s. s.latest_block_header)
    require (bytes_eq block.parent_root (C.hasher.header_root (signing_header latest)))
        block_previous_root_invalid
    modify (set_latest_header C block)
    proposer_index ← reads (beacon_proposer_index C)
    proposer ← reads (λ s. index s.validators proposer_index)
    require (not proposer.slashed) block_proposer_slashed
    signed ← gets (is_signed_by block proposer.pubkey)
    require signed block_signature_invalid

  unfoldable pub process_randao : BeaconBlockBody → M (Unit {0})
  process_randao body = do
    proposer_index ← reads (beacon_proposer_index C)
    proposer ← reads (λ s. index s.validators proposer_index)
    valid ← gets λ s.
        B.verify proposer.pubkey (C.hasher.uint_root (current_epoch C s)) body.randao_reveal
          (domain C s domain_randao none)
    require valid randao_signature_invalid
    modify (mix_randao C body)
