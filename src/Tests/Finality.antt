-- ===== src/Tests/Finality.antt =====
-- Justification and finality on concrete inputs.
use shasper.Prelude.{ℕ, ◌≤◌, ◌≡◌, refl, arith, inl, [], ◌∷◌, true, false}
use shasper.Types.{Checkpoint}
use shasper.Outcome.{ok}
use shasper.Justifier.{
  Justifier, JustifierRegistry, process, justify, finalize, shift_bits, all_set,
}
use shasper.Justifier.Order.{IsOrdered, process-IsOrdered}
use shasper.Justifier.Due.{Choice}
use shasper.Justifier.Finality.{process-Choice, process_finalizes_previous}
use shasper.Tests.Samples.{checkpoint_at}

-- Epoch 5, where the epochs 3 and 4 are justified; 80 of 100 vote for each target.
abbrev before : Justifier Checkpoint
before = record {
  justification_bits = true ∷ true ∷ false ∷ false ∷ [];
  current_justified_checkpoint = checkpoint_at 4;
  previous_justified_checkpoint = checkpoint_at 3;
  finalized_checkpoint = checkpoint_at 2;
}

abbrev after : Justifier Checkpoint
after = record {
  justification_bits = true ∷ true ∷ true ∷ false ∷ [];
  current_justified_checkpoint = checkpoint_at 5;
  previous_justified_checkpoint = checkpoint_at 4;
  finalized_checkpoint = checkpoint_at 4;
}

abbrev votes : JustifierRegistry Checkpoint
votes = record { total_active_balance = ok 100; attesting_target_balance = λ c. ok 80 }

abbrev epoch : Checkpoint → ℕ
epoch c = c.epoch

ran : process epoch before (checkpoint_at 4) (checkpoint_at 5) votes ≡ ok after
unfolding process justify finalize shift_bits all_set
ran = refl

before-IsOrdered : IsOrdered epoch before 5
before-IsOrdered = omega arith

process-IsOrdered_example : IsOrdered epoch after 6 × (2 ≤ 4)
process-IsOrdered_example =
    process-IsOrdered epoch before after (checkpoint_at 4) (checkpoint_at 5) votes before-IsOrdered
      refl ran

process-Choice_example :
    (j' : Justifier Checkpoint) × (process epoch before (checkpoint_at 4) (checkpoint_at 5) votes
      ≡ ok j')
    × (j'.justification_bits ≡ true ∷ true ∷ true ∷ false ∷ [])
    × Choice epoch j'.justification_bits 5
        (checkpoint_at 3)
        (checkpoint_at 4)
        (checkpoint_at 2)
        j'.finalized_checkpoint
process-Choice_example =
    process-Choice epoch before (checkpoint_at 4) (checkpoint_at 5) votes 80 80 100 true true false
      false refl refl refl refl (omega arith) (omega arith) (omega arith) (omega arith)
      (omega arith)

process_finalizes_previous_example :
    (j' : Justifier Checkpoint) × (process epoch before (checkpoint_at 4) (checkpoint_at 5) votes
      ≡ ok j')
    × (j'.finalized_checkpoint ≡ checkpoint_at 4)
    × (j'.current_justified_checkpoint ≡ checkpoint_at 5)
    × (j'.previous_justified_checkpoint ≡ checkpoint_at 4)
process_finalizes_previous_example =
    process_finalizes_previous epoch before (checkpoint_at 4) (checkpoint_at 5) votes 80 80 100 true
      true false false refl refl refl refl (omega arith) (omega arith) (omega arith) refl
      (omega arith) (omega arith) (inl refl)
