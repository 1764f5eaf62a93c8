-- ===== src/Executive/Operations/Included.antt =====
-- What an attestation in a block does: `process_attestation` of
-- beacon/src/executive/transition/per_block/operations/attestation.rs.
use shasper.Prelude.{
  ℕ, ◌≤◌, ◌<◌, ◌≡◌, ◌≢◌, ◌⊎◌, ◌↔◌, inl, inr, sym, refl, true, false, Bool, Bool-cases, ltb→lt,
  lt→ltb, le→leb, ==_iff, ◌==◌, ◌||◌, not, arith, add64, sub64, [], ◌∷◌, ◌++◌, bytes_eq_iff, subst,
  ap, ◌∙◌,
}
use shasper.Types.{
  BeaconState, Attestation, PendingAttestation, IndexedAttestation, Checkpoint, checkpoint_eq,
}
use shasper.Outcome.{ok}
use shasper.Config.{Config, BlsConfig}
use shasper.Executive.Accessors.{
  current_epoch, previous_epoch, committee_count_at_slot, beacon_proposer_index,
  indexed_attestation,
}
use shasper.Executive.Predicates.{is_valid_indexed_attestation}
use shasper.Executive.Operations.Votes.{push_attestation, process_attestation}
use shasper.Executive.Monad.{◌>>=◌, gets, reads, require, modify}
use shasper.Executive.Runs.{runs_check, runs_get, runs_read, runs_modify}

checkpoint_eq_iff : (c d : Checkpoint) → (checkpoint_eq c d ≡ true) ↔ (c ≡ d)
checkpoint_eq_iff c d = ground (arith, bytes_eq_iff c.root d.root)

-- What the state keeps of an attestation.
abbrev pub pending_of : Attestation → BeaconState → ℕ → PendingAttestation
pending_of a s proposer = record {
  aggregation_bits = a.aggregation_bits;
  att_data = a.att_data;
  inclusion_delay = sub64 s.slot a.att_data.slot;
  proposer_index = proposer;
}

module _ (C : Config) (B : BlsConfig) where
  -- The attestation stands at the end of the list of its epoch; a target of the current epoch comes with the
  -- justified source.
  abbrev pub Pushed : Attestation → BeaconState → ℕ → BeaconState → Type 0
  Pushed a s proposer s' =
      ((a.att_data.target.epoch ≡ current_epoch C s)
        × (a.att_data.source ≡ s.current_justified_checkpoint)
        × (s' ≡ record s {
          current_epoch_attestations = s.current_epoch_attestations ++ pending_of a s proposer ∷ [];
        }))
      ⊎ ((a.att_data.target.epoch ≢ current_epoch C s)
          × (a.att_data.target.epoch ≡ previous_epoch C s)
          × (s' ≡ record s {
            previous_epoch_attestations =
                s.previous_epoch_attestations ++ pending_of a s proposer ∷ [];
          }))

  -- An attestation that the state may include, and the state with it.
  pub record Included (a : Attestation) (s s' : BeaconState) : Type 0 where
    pub committee : a.att_data.index < committee_count_at_slot C s a.att_data.slot
    pub not_early : add64 a.att_data.slot C.min_attestation_inclusion_delay ≤ s.slot
    pub not_late : s.slot ≤ add64 a.att_data.slot C.slots_per_epoch
    pub indexed : IndexedAttestation
    pub indexed_as : indexed_attestation C s a ≡ ok indexed
    pub valid : is_valid_indexed_attestation C B s indexed ≡ ok true
    pub proposer : ℕ
    pub elected : beacon_proposer_index C s ≡ ok proposer
    pub pushed : Pushed a s proposer s'

  pushes :
      (a : Attestation) (s s' : BeaconState) (proposer : ℕ)
      → ((a.att_data.target.epoch == current_epoch C s)
          || (a.att_data.target.epoch == previous_epoch C s))
        ≡ true
      → (not (a.att_data.target.epoch == current_epoch C s)
          || checkpoint_eq a.att_data.source s.current_justified_checkpoint)
        ≡ true
      → s'
        ≡ push_attestation
            (a.att_data.target.epoch == current_epoch C s)
            (pending_of a s proposer)
            s
      → Pushed a s proposer s'
  unfolding push_attestation
  pushes a s s' proposer target source pushed =
      let push : Bool → BeaconState = λ b. push_attestation b (pending_of a s proposer) s in
      elim (Bool-cases (a.att_data.target.epoch == current_epoch C s)) [
        | inl now ↦
            let same : checkpoint_eq a.att_data.source s.current_justified_checkpoint ≡ true =
              subst
                (λ (b : Bool).
                  (not b || checkpoint_eq a.att_data.source s.current_justified_checkpoint) ≡ true)
                now source in
            inl ((==_iff _ _).0 now, (checkpoint_eq_iff _ _).0 same, pushed ∙ ap push now)
        | inr other ↦
            let before : (a.att_data.target.epoch == previous_epoch C s) ≡ true =
              subst (λ (b : Bool). (b || (a.att_data.target.epoch == previous_epoch C s)) ≡ true)
                other target in
            inr (λ h. absurd (cc ((==_iff _ _).1 h)), (==_iff _ _).0 before, pushed ∙ ap push other)
      ]

  included :
      (a : Attestation) (s s' : BeaconState)
      → process_attestation C B a s ≡ (ok tt, s')
      → Included a s s'
  unfolding process_attestation push_attestation
  included a s s' e =
      let (committee, r1) = runs_check _ _ _ (runs_get _ _ e) in
      let (target, r2) = runs_check _ _ _ (runs_get _ _ (runs_get _ _ r1)) in
      let (window, r3) = runs_check _ _ _ (runs_get _ _ r2) in
      let (proposer, elected, r4) = runs_read _ _ r3 in
      let (source, r5) = runs_check _ _ _ (runs_get _ _ r4) in
      let (indexed, at, r6) = runs_read _ _ r5 in
      let (valid, v, r7) = runs_read _ _ r6 in
      let (signed, r8) = runs_check _ _ _ r7 in
      record {
        committee = ltb→lt _ _ committee;
        not_early = ground (arith, window);
        not_late = ground (arith, window);
        indexed = indexed;
        indexed_as = at;
        valid = rw (sym signed) v;
        proposer = proposer;
        elected = elected;
        pushed = pushes a s s' proposer target source (runs_modify _ r8);
      }

  includes :
      (a : Attestation) (s s' : BeaconState)
      → Included a s s'
      → process_attestation C B a s ≡ (ok tt, s')
  unfolding process_attestation push_attestation ◌>>=◌ gets reads require modify
  includes a s s' h =
      let committee = lt→ltb _ _ h.committee in
      let early = le→leb _ _ h.not_early in
      let late = le→leb _ _ h.not_late in
      elim h.pushed [
        | inl (target, source, e) ↦
            let now = (==_iff _ _).1 target in
            let same = (checkpoint_eq_iff _ _).1 source in
            rw (e, committee, now, early, late, h.elected, same, h.indexed_as, h.valid) refl
        | inr (other, target, e) ↦
            let then : (a.att_data.target.epoch == current_epoch C s) ≡ false = ground arith in
            let before = (==_iff _ _).1 target in
            rw (e, committee, then, before, early, late, h.elected, h.indexed_as, h.valid) refl
      ]

  -- An attestation is processed exactly where its committee exists at its slot, its slot is in the window for
  -- inclusion (with sums of 64 bits), its target is of the current epoch and comes with the justified source,
  -- or is of the previous epoch, and its signature is valid; then it stands, with its delay and the proposer
  -- of the block, at the end of the list of its epoch, and nothing else changes.
  pub process_attestation-Included :
      (a : Attestation) (s s' : BeaconState)
      → (process_attestation C B a s ≡ (ok tt, s')) ↔ Included a s s'
  process_attestation-Included a s s' = (included a s s', includes a s s')
