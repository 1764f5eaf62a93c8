-- ===== src/Pallet.antt =====
-- substrate/casper/pallet/src/lib.rs: the storage of the Casper module, its two calls and its getters.
-- The rest of the framework is a parameter: the signature scheme, the encoding, the hashes of blocks.
pub mod Session
pub mod Offchain
pub mod Slashed
pub mod Attested
pub mod Submitted
pub mod Recounted
pub mod Refines
pub mod Ordered
pub mod Reached
use shasper.Prelude.{
  ◌≡◌, refl, ℕ, ◌%◌, ◌^◌, Bool, true, false, ◌&&◌, ◌||◌, not, List, [], ◌∷◌, ◌++◌, ◌==◌,
  if◌then◌else◌, ltb, length, Bytes, bytes_eq, Option, none, some,
}
use shasper.Results.{Result, ok, err, panic, ◌>>=◌, ◌>>◌, require}

pub record Checkpoint : Type 0 where
  pub epoch : ℕ
  pub hash : Bytes

pub record Attestation : Type 0 where
  pub validator_id : Bytes
  pub source : Checkpoint
  pub target : Checkpoint

pub data Event : Type 0 where
  on_new_previous_epoch_attestation : Attestation → Event
  on_new_current_epoch_attestation : Attestation → Event

-- The messages of the refusals, in the order of the source.
pub data Refusal : Type 0 where
  bad_origin : Refusal
  same_attestation : Refusal
  attestation_1_signature : Refusal
  attestation_2_signature : Refusal
  not_same_validator : Refusal
  not_slashing_conditions : Refusal
  validator_not_in_session : Refusal
  attestation_signature : Refusal
  source_or_target : Refusal
  signing_failed : Refusal
  create_unsigned_failed : Refusal
  submit_failed : Refusal

-- What the module calls of the framework.
pub record Host : Type 0 where
  pub encode : Attestation → Bytes
  pub verify : Bytes → Bytes → Bytes → Bool
  pub sign : Bytes → Bytes → Option Bytes
  pub local_keys : List Bytes
  pub block_hash : ℕ → Bytes
  pub block_number : ℕ
  pub add_one : ℕ → ℕ
  pub new_extrinsic : Attestation → Bytes → Option Bytes
  pub submit_transaction : Bytes → Bool

-- The storage, and the events and slashings that were reported.
pub record Casper : Type 0 where
  pub validators : List (Bytes × ℕ)
  pub current_epoch : ℕ
  pub current_epoch_number : ℕ
  pub previous_epoch : ℕ
  pub previous_epoch_number : ℕ
  pub previous_justified_epoch : ℕ
  pub previous_justified_epoch_number : ℕ
  pub current_justified_epoch : ℕ
  pub current_justified_epoch_number : ℕ
  pub finalized_epoch : ℕ
  pub finalized_epoch_number : ℕ
  pub current_epoch_attestations : List Attestation
  pub current_epoch_attestations_count : ℕ
  pub previous_epoch_attestations : List Attestation
  pub previous_epoch_attestations_count : ℕ
  pub justification_bits : List Bool
  pub events : List Event
  pub slashed : List Bytes

-- The storage at genesis, for the configured validators.
unfoldable pub genesis : List (Bytes × ℕ) → Casper
genesis validators = record {
  validators = validators;
  current_epoch = 0;
  current_epoch_number = 0;
  previous_epoch = 0;
  previous_epoch_number = 0;
  previous_justified_epoch = 0;
  previous_justified_epoch_number = 0;
  current_justified_epoch = 0;
  current_justified_epoch_number = 0;
  finalized_epoch = 0;
  finalized_epoch_number = 0;
  current_epoch_attestations = [];
  current_epoch_attestations_count = 0;
  previous_epoch_attestations = [];
  previous_epoch_attestations_count = 0;
  justification_bits = false ∷ false ∷ false ∷ false ∷ [];
  events = [];
  slashed = [];
}

unfoldable pub checkpoint_eq : Checkpoint → Checkpoint → Bool
checkpoint_eq c d = (c.epoch == d.epoch) && bytes_eq c.hash d.hash

unfoldable pub attestation_eq : Attestation → Attestation → Bool
unfolding checkpoint_eq
attestation_eq a b =
    bytes_eq a.validator_id b.validator_id
    && checkpoint_eq a.source b.source
    && checkpoint_eq a.target b.target

-- `slashable_cond`: a double vote, or the second vote inside the first.
unfoldable pub slashable_cond : Attestation → Attestation → Bool
slashable_cond a b =
    (a.target.epoch == b.target.epoch)
    || (ltb a.source.epoch b.source.epoch && ltb b.target.epoch a.target.epoch)

unfoldable pub in_session : Bytes → List (Bytes × ℕ) → Bool
in_session key [] = false
in_session key ((k, w) ∷ vs) = if bytes_eq k key then true else in_session key vs

module _ (host : Host) where
  -- `from_none`: the origin passed `ensure_none`.
  unfoldable pub slash :
      Bool → Attestation → Bytes → Attestation → Bytes → Casper → Result Refusal Casper
  unfolding attestation_eq slashable_cond
  slash from_none a sig_1 b sig_2 s =
      require from_none bad_origin
      >> require (not (attestation_eq a b)) same_attestation
      >> require (host.verify a.validator_id (host.encode a) sig_1) attestation_1_signature
      >> require (host.verify b.validator_id (host.encode b) sig_2) attestation_2_signature
      >> require (bytes_eq a.validator_id b.validator_id) not_same_validator
      >> require (slashable_cond a b) not_slashing_conditions
      >> ok (record s { slashed = s.slashed ++ a.validator_id ∷ [] })

  -- The checkpoint of an epoch whose first block has a given number.
  abbrev pub checkpoint_of : ℕ → ℕ → Checkpoint
  checkpoint_of epoch number = record { epoch = epoch; hash = host.block_hash number }

  unfoldable pub push_previous : Attestation → Casper → Casper
  push_previous a s =
      let attestations = s.previous_epoch_attestations ++ a ∷ [] in
      record s {
        previous_epoch_attestations_count = length attestations % 2 ^ 32;
        previous_epoch_attestations = attestations;
        events = s.events ++ on_new_previous_epoch_attestation a ∷ [];
      }

  unfoldable pub push_current : Attestation → Casper → Casper
  push_current a s =
      let attestations = s.current_epoch_attestations ++ a ∷ [] in
      record s {
        current_epoch_attestations_count = length attestations % 2 ^ 32;
        current_epoch_attestations = attestations;
        events = s.events ++ on_new_current_epoch_attestation a ∷ [];
      }

  unfoldable pub attest : Bool → Attestation → Bytes → Casper → Result Refusal Casper
  unfolding in_session push_previous push_current checkpoint_eq
  attest from_none a signature s =
      require from_none bad_origin
      >> require (in_session a.validator_id s.validators) validator_not_in_session
      >> require (host.verify a.validator_id (host.encode a) signature) attestation_signature
      >> (if checkpoint_eq a.source
              (checkpoint_of s.previous_justified_epoch s.previous_justified_epoch_number)
            && checkpoint_eq a.target (checkpoint_of s.previous_epoch s.previous_epoch_number)
          then ok (push_previous a s)
          else (if checkpoint_eq a.source
                  (checkpoint_of s.current_justified_epoch s.current_justified_epoch_number)
                && checkpoint_eq a.target (checkpoint_of s.current_epoch s.current_epoch_number)
              then ok (push_current a s)
              else err source_or_target))

  unfoldable pub current_justified_block : Casper → Bytes
  current_justified_block s = host.block_hash s.current_justified_epoch_number

  unfoldable pub previous_justified_block : Casper → Bytes
  previous_justified_block s = host.block_hash s.previous_justified_epoch_number

  unfoldable pub finalized_block : Casper → Bytes
  finalized_block s = host.block_hash s.finalized_epoch_number
