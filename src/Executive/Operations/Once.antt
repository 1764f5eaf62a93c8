-- ===== src/Executive/Operations/Once.antt =====
-- A proposer is slashed once: `process_proposer_slashing` of
-- beacon/src/executive/transition/per_block/operations/proposer_slashing.rs.
use shasper.Prelude.{
  ℕ, ◌≡◌, refl, ap, ◌∙◌, true, false, not, get_elem?, some, ltb, lt→ltb, lt-of_get_elem?, length,
  ◌==◌, none,
}
use shasper.Types.{BeaconState, Validator, ProposerSlashing, is_slashable, header_eq}
use shasper.Outcome.{
  ok, err, proposer_slashing_already_slashed, proposer_slashing_invalid_slot,
  proposer_slashing_same_header, proposer_slashing_invalid_proposer_index,
}
use shasper.Config.{Config, BlsConfig}
use shasper.Executive.Accessors.{current_epoch}
use shasper.Executive.Monad.{gets}
use shasper.Executive.Operations.Slashings.{process_proposer_slashing}
use shasper.Executive.Runs.{
  runs_bind, steps_bind, steps_index, steps_require, fails_require, fails_bind,
}
use shasper.Executive.Mutators.Slash.{slash_validator-slashed}

proposer_slashing-slashed :
    (C : Config) (B : BlsConfig) (t : ProposerSlashing) (s s' : BeaconState)
    → process_proposer_slashing C B t s ≡ (ok tt, s')
    → (v : Validator) × (get_elem? s'.validators t.proposer_index ≡ some v) × (v.slashed ≡ true)
unfolding process_proposer_slashing
proposer_slashing-slashed C B t s s' e =
    let (_, s1, e1, r1) = runs_bind _ _ e in
    let (_, s2, e2, r2) = runs_bind _ _ r1 in
    let (_, s3, e3, r3) = runs_bind _ _ r2 in
    let (_, s4, e4, r4) = runs_bind _ _ r3 in
    let (_, s5, e5, r5) = runs_bind _ _ r4 in
    let (_, s6, e6, r6) = runs_bind _ _ r5 in
    let (_, s7, e7, r7) = runs_bind _ _ r6 in
    let (_, s8, e8, r8) = runs_bind _ _ r7 in
    let (_, s9, e9, r9) = runs_bind _ _ r8 in
    let (_, s10, e10, r10) = runs_bind _ _ r9 in
    let (_, s11, e11, r11) = runs_bind _ _ r10 in
    slash_validator-slashed C t.proposer_index none s11 s' r11

slashed-not_slashable :
    (v : Validator) (epoch : ℕ) → v.slashed ≡ true → is_slashable v epoch ≡ false
slashed-not_slashable v epoch h = rw h refl

-- Once a proposer slashing has succeeded, the same one, and every other for the same proposer that passes
-- the two checks on the headers, is refused as already slashed, and changes nothing.
pub process_proposer_slashing-once :
    (C : Config) (B : BlsConfig) (t t' : ProposerSlashing) (s s' : BeaconState)
    → process_proposer_slashing C B t s ≡ (ok tt, s')
    → t'.proposer_index ≡ t.proposer_index
    → (t'.header_1.slot == t'.header_2.slot) ≡ true
    → not (header_eq t'.header_1 t'.header_2) ≡ true
    → process_proposer_slashing C B t' s' ≡ (err proposer_slashing_already_slashed, s')
unfolding process_proposer_slashing gets
process_proposer_slashing-once C B t t' s s' e same slots differ =
    let (v, at, slashed) = proposer_slashing-slashed C B t s s' e in
    let at' : get_elem? s'.validators t'.proposer_index ≡ some v =
      ap (get_elem? s'.validators) same ∙ at in
    let known = lt→ltb _ _ (lt-of_get_elem? s'.validators t'.proposer_index at') in
    steps_bind _ _ (steps_require proposer_slashing_invalid_slot s' slots)
    ∙ steps_bind _ _ (steps_require proposer_slashing_same_header s' differ)
    ∙ steps_bind (gets (λ x. ltb t'.proposer_index (length x.validators))) _ refl
    ∙ steps_bind _ _ (steps_require proposer_slashing_invalid_proposer_index s' known)
    ∙ steps_bind _ _ (steps_index (λ x. x.validators) t'.proposer_index at')
    ∙ steps_bind (gets (current_epoch C)) _ refl
    ∙ fails_bind _ _
        (fails_require proposer_slashing_already_slashed s' (slashed-not_slashable v _ slashed))
