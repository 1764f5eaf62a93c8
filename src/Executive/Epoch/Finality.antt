-- ===== src/Executive/Epoch/Finality.antt =====
-- What `process_justification_and_finalization` does with the state where it succeeds.
use shasper.Prelude.{◌≡◌, subst, sym, ◌⊎◌, inl, inr, leb, add64, Bool-cases, false, Bytes}
use shasper.Types.{BeaconState, Checkpoint}
use shasper.Outcome.{ok, >>=-eq-ok, ok-injective}
use shasper.Config.{Config}
use shasper.Justifier.{Justifier, process}
use shasper.Executive.Accessors.{current_epoch, previous_epoch, block_root}
use shasper.Executive.Keeps.{Keeps, commit-Keeps}
use shasper.Executive.Epoch.Justification.{
  process_justification_and_finalization, justified_state, justifier_of, justifier_registry,
  with_justifier,
}

module _ (C : Config) where
  -- It leaves the state alone in the first two epochs, and else writes back what the justifier made
  -- of the checkpoints of the previous and of the current epoch.
  unfoldable pub Justifies : BeaconState → BeaconState → Type 0
  Justifies s s' =
      (s' ≡ s)
      ⊎ ((leb (current_epoch C s) (add64 C.genesis_epoch 1) ≡ false)
          × ((previous : Bytes) × (current : Bytes) × (j : Justifier Checkpoint) × (process
                  (λ c. c.epoch) (justifier_of s)
                  (record { epoch = previous_epoch C s; root = previous })
                  (record { epoch = current_epoch C s; root = current }) (justifier_registry C s)
                ≡ ok j)
              × (s' ≡ with_justifier s j)))

  pub justified_state-Justifies :
      (s s' : BeaconState) → justified_state C s ≡ ok s' → Justifies s s'
  unfolding justified_state Justifies
  justified_state-Justifies s s' e =
      elim (Bool-cases (leb (current_epoch C s) (add64 C.genesis_epoch 1))) [
        | inl early ↦ inl (sym (ok-injective (rw early at e)))
        | inr late ↦
            let (previous, ep, e1) =
              >>=-eq-ok (block_root C s (previous_epoch C s)) _ (rw late at e) in
            let (current, ec, e2) = >>=-eq-ok (block_root C s (current_epoch C s)) _ e1 in
            let (j, ej, e3) = >>=-eq-ok _ _ e2 in
            inr (late, (previous, current, j, ej, sym (ok-injective e3)))
      ]

  -- Justification keeps what holds of every write of the justifier.
  pub justification-Keeps :
      {P : BeaconState → Type 0}
      → ((s : BeaconState) (j : Justifier Checkpoint) → P s → P (with_justifier s j))
      → Keeps P (process_justification_and_finalization C)
  unfolding process_justification_and_finalization Justifies
  justification-Keeps {P} k = commit-Keeps _ λ s s' h e. elim (justified_state-Justifies s s' e) [
    | inl same ↦ subst P (sym same) h
    | inr (late, (previous, current, j, ran, same)) ↦ subst P (sym same) (k s j h)
  ]
