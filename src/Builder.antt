-- ===== src/Builder.antt =====
-- The functions of beacon/src/lib.rs: executing a block, and building one from transactions.
use shasper.Prelude.{ℕ, ◌-◌, min, [], ◌∷◌, ◌++◌, ltb, leb, ◌==◌, length, Bytes, replicate}
use shasper.Types.{
  BeaconBlock, UnsealedBeaconBlock, Eth1Data, ProposerSlashing, AttesterSlashing, Attestation,
  Deposit, VoluntaryExit, default_body, signing_header, sealed_block, unsealed_block,
}
use shasper.Outcome.{
  too_many_deposits, too_many_proposer_slashings, too_many_attester_slashings,
  too_many_attestations, too_many_voluntary_exits, invalid_eth1_data,
}
use shasper.Config.{Config, BlsConfig}
use shasper.Utils.{bls_domain}
use shasper.Executive.Monad.{M, ◌>>=◌, ◌>>◌, pure, gets, require}
use shasper.Executive.Header.{process_block_header, process_randao, process_eth1_data}
use shasper.Executive.Operations.Slashings.{process_proposer_slashing, process_attester_slashing}
use shasper.Executive.Operations.Votes.{process_attestation}
use shasper.Executive.Operations.Registry.{process_deposit, process_voluntary_exit}
use shasper.Executive.Transition.{process_slots, state_transition}

pub record Inherent : Type 0 where
  pub randao_reveal : Bytes
  pub eth1_data : Eth1Data

pub data Transaction : Type 0 where
  proposer_slashing : ProposerSlashing → Transaction
  attester_slashing : AttesterSlashing → Transaction
  attestation : Attestation → Transaction
  deposit : Deposit → Transaction
  voluntary_exit : VoluntaryExit → Transaction

unfoldable pub genesis_domain : ℕ → ℕ
genesis_domain domain_type = bls_domain domain_type (replicate 4 0)

module _ (C : Config) where
  unfoldable pub initialize_block : ℕ → M (Unit {0})
  initialize_block target_slot = process_slots C target_slot

module _ (C : Config) (B : BlsConfig) where
  unfoldable pub execute_block : BeaconBlock → M (Unit {0})
  execute_block block = state_transition C B (sealed_block block)

  unfoldable pub apply_inherent : BeaconBlock → Inherent → M UnsealedBeaconBlock
  apply_inherent parent_block inherent = do
    slot ← gets (λ s. s.slot)
    latest ← gets (λ s. s.latest_block_header)
    let block : UnsealedBeaconBlock = record {
      slot = slot;
      parent_root = C.hasher.header_root (signing_header latest);
      state_root = parent_block.state_root;
      body = record default_body {
        randao_reveal = inherent.randao_reveal;
        eth1_data = inherent.eth1_data;
      };
    }
    process_randao C B block.body
    process_eth1_data C block.body
    pure block

  -- The block with the transaction, if the state takes it.
  unfoldable pub apply_transaction : UnsealedBeaconBlock → Transaction → M UnsealedBeaconBlock
  apply_transaction block (proposer_slashing t) = do
    require (ltb (length block.body.proposer_slashings) C.max_proposer_slashings)
        too_many_proposer_slashings
    process_proposer_slashing C B t
    let body = block.body
    pure (record block {
      body = record body { proposer_slashings = body.proposer_slashings ++ t ∷ [] };
    })
  apply_transaction block (attester_slashing t) = do
    require (ltb (length block.body.attester_slashings) C.max_attester_slashings)
        too_many_attester_slashings
    process_attester_slashing C B t
    let body = block.body
    pure (record block {
      body = record body { attester_slashings = body.attester_slashings ++ t ∷ [] };
    })
  apply_transaction block (attestation t) = do
    require (ltb (length block.body.attestations) C.max_attestations) too_many_attestations
    process_attestation C B t
    let body = block.body
    pure (record block { body = record body { attestations = body.attestations ++ t ∷ [] } })
  apply_transaction block (deposit t) = do
    require (ltb (length block.body.deposits) C.max_deposits) too_many_deposits
    process_deposit C B t
    let body = block.body
    pure (record block { body = record body { deposits = body.deposits ++ t ∷ [] } })
  apply_transaction block (voluntary_exit t) = do
    require (ltb (length block.body.voluntary_exits) C.max_voluntary_exits) too_many_voluntary_exits
    process_voluntary_exit C B t
    let body = block.body
    pure (record block { body = record body { voluntary_exits = body.voluntary_exits ++ t ∷ [] } })

  unfoldable pub finalize_block : UnsealedBeaconBlock → M UnsealedBeaconBlock
  finalize_block block = do
    eth1_data ← gets (λ s. s.eth1_data)
    deposit_index ← gets (λ s. s.eth1_deposit_index)
    require (leb deposit_index eth1_data.deposit_count) invalid_eth1_data
    require
        (length block.body.deposits == min C.max_deposits (eth1_data.deposit_count - deposit_index))
        too_many_deposits
    process_block_header C B (unsealed_block block)
    root ← gets C.hasher.state_root
    pure (record block { state_root = root })
