-- ===== src/Types/Blocks.antt =====
-- beacon/src/types/block.rs. The trait `Block` is the record of what its methods return.
use shasper.Prelude.{ℕ, List, [], Bytes, Option, none, some, replicate}
use shasper.Types.Misc.{Eth1Data, zero_hash}
use shasper.Types.Operation.{
  AttesterSlashing, ProposerSlashing, Attestation, Deposit, VoluntaryExit,
}

pub record BeaconBlockBody : Type 0 where
  pub randao_reveal : Bytes
  pub eth1_data : Eth1Data
  pub graffiti : Bytes
  pub proposer_slashings : List ProposerSlashing
  pub attester_slashings : List AttesterSlashing
  pub attestations : List Attestation
  pub deposits : List Deposit
  pub voluntary_exits : List VoluntaryExit

abbrev pub default_eth1_data : Eth1Data
default_eth1_data = record { deposit_root = zero_hash; deposit_count = 0; block_hash = zero_hash }

-- `BeaconBlockBody::default()`.
abbrev pub default_body : BeaconBlockBody
default_body = record {
  randao_reveal = replicate 96 0;
  eth1_data = default_eth1_data;
  graffiti = zero_hash;
  proposer_slashings = [];
  attester_slashings = [];
  attestations = [];
  deposits = [];
  voluntary_exits = [];
}

pub record Block : Type 0 where
  pub slot : ℕ
  pub parent_root : Bytes
  pub state_root : Bytes
  pub body : BeaconBlockBody
  pub signature : Option Bytes

pub record BeaconBlock : Type 0 where
  pub slot : ℕ
  pub parent_root : Bytes
  pub state_root : Bytes
  pub body : BeaconBlockBody
  pub signature : Bytes

pub record UnsealedBeaconBlock : Type 0 where
  pub slot : ℕ
  pub parent_root : Bytes
  pub state_root : Bytes
  pub body : BeaconBlockBody

-- `impl Block for BeaconBlock`.
abbrev pub sealed_block : BeaconBlock → Block
sealed_block b = record {
  slot = b.slot;
  parent_root = b.parent_root;
  state_root = b.state_root;
  body = b.body;
  signature = some b.signature;
}

-- `impl Block for UnsealedBeaconBlock`.
abbrev pub unsealed_block : UnsealedBeaconBlock → Block
unsealed_block b = record {
  slot = b.slot;
  parent_root = b.parent_root;
  state_root = b.state_root;
  body = b.body;
  signature = none;
}

-- `UnsealedBeaconBlock::from`.
abbrev pub unsealed : Block → UnsealedBeaconBlock
unsealed t = record {
  slot = t.slot;
  parent_root = t.parent_root;
  state_root = t.state_root;
  body = t.body;
}

abbrev pub fake_seal : UnsealedBeaconBlock → BeaconBlock
fake_seal b = record {
  slot = b.slot;
  parent_root = b.parent_root;
  state_root = b.state_root;
  body = b.body;
  signature = replicate 96 0;
}
