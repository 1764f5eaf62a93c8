-- ===== src/Types/Misc.antt =====
-- beacon/src/types/misc.rs.
use shasper.Prelude.{
  ℕ, Bool, not, ◌&&◌, ◌||◌, List, leb, ltb, ◌==◌, Bytes, bytes_eq, replicate, add64,
}

-- `H256::default()`.
abbrev pub zero_hash : Bytes
zero_hash = replicate 32 0

pub record Fork : Type 0 where
  pub previous_version : Bytes
  pub current_version : Bytes
  pub epoch : ℕ

pub record Checkpoint : Type 0 where
  pub epoch : ℕ
  pub root : Bytes

abbrev pub checkpoint_eq : Checkpoint → Checkpoint → Bool
checkpoint_eq a b = (a.epoch == b.epoch) && bytes_eq a.root b.root

pub record Validator : Type 0 where
  pub pubkey : Bytes
  pub withdrawal_credentials : Bytes
  pub effective_balance : ℕ
  pub slashed : Bool
  pub activation_eligibility_epoch : ℕ
  pub activation_epoch : ℕ
  pub exit_epoch : ℕ
  pub withdrawable_epoch : ℕ

abbrev pub is_active : Validator → ℕ → Bool
is_active v epoch = leb v.activation_epoch epoch && ltb epoch v.exit_epoch

abbrev pub is_slashable : Validator → ℕ → Bool
is_slashable v epoch =
    not v.slashed && (leb v.activation_epoch epoch && ltb epoch v.withdrawable_epoch)

abbrev pub is_eligible : Validator → Checkpoint → Bool
is_eligible v checkpoint =
    is_active v checkpoint.epoch
    || (v.slashed && ltb (add64 checkpoint.epoch 1) v.withdrawable_epoch)

pub record AttestationData : Type 0 where
  pub slot : ℕ
  pub index : ℕ
  pub beacon_block_root : Bytes
  pub source : Checkpoint
  pub target : Checkpoint

abbrev pub attestation_data_eq : AttestationData → AttestationData → Bool
attestation_data_eq a b =
    (a.slot == b.slot)
    && ((a.index == b.index)
        && (bytes_eq a.beacon_block_root b.beacon_block_root
            && (checkpoint_eq a.source b.source && checkpoint_eq a.target b.target)))

-- `AttestationData::is_slashable`: a double vote, or a vote of the first that surrounds the second.
abbrev pub is_slashable_data : AttestationData → AttestationData → Bool
is_slashable_data a b =
    (not (attestation_data_eq a b) && (a.target.epoch == b.target.epoch))
    || (ltb a.source.epoch b.source.epoch && ltb b.target.epoch a.target.epoch)

pub record AttestationDataAndCustodyBit : Type 0 where
  pub att_data : AttestationData
  pub custody_bit : Bool

pub record IndexedAttestation : Type 0 where
  pub custody_bit_0_indices : List ℕ
  pub custody_bit_1_indices : List ℕ
  pub att_data : AttestationData
  pub signature : Bytes

pub record PendingAttestation : Type 0 where
  pub aggregation_bits : List Bool
  pub att_data : AttestationData
  pub inclusion_delay : ℕ
  pub proposer_index : ℕ

pub record Eth1Data : Type 0 where
  pub deposit_root : Bytes
  pub deposit_count : ℕ
  pub block_hash : Bytes

abbrev pub eth1_data_eq : Eth1Data → Eth1Data → Bool
eth1_data_eq a b =
    bytes_eq a.deposit_root b.deposit_root
    && ((a.deposit_count == b.deposit_count) && bytes_eq a.block_hash b.block_hash)

pub record HistoricalBatch : Type 0 where
  pub block_roots : List Bytes
  pub state_roots : List Bytes

pub record DepositData : Type 0 where
  pub pubkey : Bytes
  pub withdrawal_credentials : Bytes
  pub amount : ℕ
  pub signature : Bytes

pub record SigningDepositData : Type 0 where
  pub pubkey : Bytes
  pub withdrawal_credentials : Bytes
  pub amount : ℕ

abbrev pub signing_deposit_data : DepositData → SigningDepositData
signing_deposit_data d = record {
  pubkey = d.pubkey;
  withdrawal_credentials = d.withdrawal_credentials;
  amount = d.amount;
}

pub record BeaconBlockHeader : Type 0 where
  pub slot : ℕ
  pub parent_root : Bytes
  pub state_root : Bytes
  pub body_root : Bytes
  pub signature : Bytes

abbrev pub header_eq : BeaconBlockHeader → BeaconBlockHeader → Bool
header_eq a b =
    (a.slot == b.slot)
    && (bytes_eq a.parent_root b.parent_root
        && (bytes_eq a.state_root b.state_root
            && (bytes_eq a.body_root b.body_root && bytes_eq a.signature b.signature)))

pub record SigningBeaconBlockHeader : Type 0 where
  pub slot : ℕ
  pub parent_root : Bytes
  pub state_root : Bytes
  pub body_root : Bytes

abbrev pub signing_header : BeaconBlockHeader → SigningBeaconBlockHeader
signing_header h = record {
  slot = h.slot;
  parent_root = h.parent_root;
  state_root = h.state_root;
  body_root = h.body_root;
}
