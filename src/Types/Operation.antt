-- ===== src/Types/Operation.antt =====
-- beacon/src/types/operation.rs.
use shasper.Prelude.{ℕ, Bool, List, Bytes}
use shasper.Types.Misc.{BeaconBlockHeader, IndexedAttestation, AttestationData, DepositData}

pub record ProposerSlashing : Type 0 where
  pub proposer_index : ℕ
  pub header_1 : BeaconBlockHeader
  pub header_2 : BeaconBlockHeader

pub record AttesterSlashing : Type 0 where
  pub attestation_1 : IndexedAttestation
  pub attestation_2 : IndexedAttestation

pub record Attestation : Type 0 where
  pub aggregation_bits : List Bool
  pub att_data : AttestationData
  pub custody_bits : List Bool
  pub signature : Bytes

pub record Deposit : Type 0 where
  pub proof : List Bytes
  pub deposit_data : DepositData

pub record VoluntaryExit : Type 0 where
  pub epoch : ℕ
  pub validator_index : ℕ
  pub signature : Bytes

pub record SigningVoluntaryExit : Type 0 where
  pub epoch : ℕ
  pub validator_index : ℕ

abbrev pub signing_exit : VoluntaryExit → SigningVoluntaryExit
signing_exit e = record { epoch = e.epoch; validator_index = e.validator_index }
