-- ===== src/Pallet/Slashed.antt =====
-- What `slash` of the Casper pallet punishes.
use shasper.Prelude.{
  ◌≡◌, ◌≢◌, ◌↔◌, inl, inr, ◌<◌, ◌==◌, Bool, true, ◌∷◌, [], ◌++◌, Bytes, bytes_eq_iff, arith,
  Bool-cases,
}
use shasper.Results.{ok}
use shasper.Pallet.{
  Casper, Attestation, Checkpoint, Host, slash, slashable_cond, attestation_eq, checkpoint_eq,
}

-- Two votes that no validator may both cast: the second with the target of the first, or inside it.
pub data Offence (a b : Attestation) : Type 0 where
  double_vote : a.target.epoch ≡ b.target.epoch → Offence a b
  surround_vote : a.source.epoch < b.source.epoch → b.target.epoch < a.target.epoch → Offence a b

pub checkpoint_eq_iff : (c d : Checkpoint) → (checkpoint_eq c d ≡ true) ↔ (c ≡ d)
unfolding checkpoint_eq
checkpoint_eq_iff c d = ground (arith, bytes_eq_iff c.hash d.hash)

attestation_eq_iff : (a b : Attestation) → (attestation_eq a b ≡ true) ↔ (a ≡ b)
unfolding attestation_eq
attestation_eq_iff a b = ground (
  arith,
  bytes_eq_iff a.validator_id b.validator_id,
  checkpoint_eq_iff a.source b.source,
  checkpoint_eq_iff a.target b.target,
)

slashable_cond-Offence : (a b : Attestation) → (slashable_cond a b ≡ true) ↔ Offence a b
unfolding slashable_cond
slashable_cond-Offence a b = (punished, punishable)
  where
    punished : slashable_cond a b ≡ true → Offence a b
    punished h = elim (Bool-cases (a.target.epoch == b.target.epoch)) [
      | inl same ↦ double_vote (ground arith)
      | inr other ↦ surround_vote (ground arith) (ground arith)
    ]

    punishable : Offence a b → slashable_cond a b ≡ true
    punishable (double_vote e) = ground arith
    punishable (surround_vote p q) = ground arith

module _ (host : Host) where
  -- The conditions of `slash`, as propositions.
  pub record Punishable (from_none : Bool) (a : Attestation) (sig_1 : Bytes) (b : Attestation)
      (sig_2 : Bytes) : Type 0 where
    pub unsigned : from_none ≡ true
    pub different : a ≢ b
    pub signed_1 : host.verify a.validator_id (host.encode a) sig_1 ≡ true
    pub signed_2 : host.verify b.validator_id (host.encode b) sig_2 ≡ true
    pub one_validator : a.validator_id ≡ b.validator_id
    pub offence : Offence a b

  -- `slash` succeeds exactly on two different attestations that one validator signed and that are an
  -- offence, and then it reports that validator and changes nothing else.
  pub slash-Punishable :
      (from_none : Bool) (a b : Attestation) (sig_1 sig_2 : Bytes) (s s' : Casper)
      → (slash host from_none a sig_1 b sig_2 s ≡ ok s') ↔ (
          Punishable from_none a sig_1 b sig_2
          × (s' ≡ record s { slashed = s.slashed ++ a.validator_id ∷ [] }))
  unfolding slash
  slash-Punishable from_none a b sig_1 sig_2 s s' = (punished, λ (p, e). punishes p e)
    where
      punished :
          slash host from_none a sig_1 b sig_2 s ≡ ok s'
          → Punishable from_none a sig_1 b sig_2
            × (s' ≡ record s { slashed = s.slashed ++ a.validator_id ∷ [] })
      punished ran = (
        record {
          unsigned = ground arith;
          different = ground (arith, attestation_eq_iff a b);
          signed_1 = ground arith;
          signed_2 = ground arith;
          one_validator = ground (arith, bytes_eq_iff a.validator_id b.validator_id);
          offence = ground (arith, slashable_cond-Offence a b);
        },
        ground arith,
      )

      punishes :
          Punishable from_none a sig_1 b sig_2
          → s' ≡ record s { slashed = s.slashed ++ a.validator_id ∷ [] }
          → slash host from_none a sig_1 b sig_2 s ≡ ok s'
      punishes p e = ground (
        arith,
        attestation_eq_iff a b,
        slashable_cond-Offence a b,
        p.unsigned,
        p.different,
        p.signed_1,
        p.signed_2,
        p.offence,
        bytes_eq_iff a.validator_id b.validator_id,
        p.one_validator,
      )
