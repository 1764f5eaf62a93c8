-- ===== src/Pallet/Refines.antt =====
-- The handler of a new session against the justifier of the beacon chain
-- (beacon/src/components/justification.rs): the same rules, but for a first bit that is never cleared.
use shasper.Prelude.{
  ℕ, ◌+◌, ◌<◌, ◌≡◌, ap, ◌∙◌, sym, Bool, true, false, List, [], ◌∷◌, Bytes, arith, ◌⊎◌, u64_mod,
  get_or,
}
use shasper.Results.{ok}
use shasper.Justifier.{Justifier, JustifierRegistry, process, justify, finalize, shift_bits}
use shasper.Justifier.Order.{outcome}
use shasper.Pallet.{Casper, Host}
use shasper.Pallet.Session.{
  on_new_session, justify_session, finalize_session, finalize_when, start_epoch, shift_from_second,
  total_balance, matching_target_balance, reaches,
}

-- An epoch and the number of its first block.
abbrev pub Epoch : Type 0
Epoch = ℕ × ℕ

-- What the storage says to a justifier.
unfoldable pub justifier_of : Casper → Justifier Epoch
justifier_of s = record {
  justification_bits = s.justification_bits;
  current_justified_checkpoint = (s.current_justified_epoch, s.current_justified_epoch_number);
  previous_justified_checkpoint = (s.previous_justified_epoch, s.previous_justified_epoch_number);
  finalized_checkpoint = (s.finalized_epoch, s.finalized_epoch_number);
}

abbrev pub epoch_of : Epoch → ℕ
epoch_of e = e.0

abbrev pub total_of : Casper → ℕ
total_of s = total_balance 0 s.validators

abbrev pub previous_of : Casper → ℕ
previous_of s = matching_target_balance s.validators 0 s.previous_epoch_attestations

abbrev pub current_of : Casper → ℕ
current_of s = matching_target_balance s.validators 0 s.current_epoch_attestations

-- The four tests, as one choice.
finalize_session_lem :
    (previous previous_number current current_number : ℕ) (s : Casper)
    → justifier_of (finalize_session previous previous_number current current_number s)
      ≡ record (justifier_of s) {
        finalized_checkpoint =
            finalize epoch_of s.justification_bits
              (previous, previous_number)
              (current, current_number)
              s.current_epoch
              (s.finalized_epoch, s.finalized_epoch_number);
      }
unfolding finalize_session finalize_when finalize justifier_of
finalize_session_lem previous previous_number current current_number s = ground arith

justify_session_lem :
    (p c : Bool) (s : Casper) (b0 b1 b2 b3 : Bool)
    → s.justification_bits ≡ b0 ∷ b1 ∷ b2 ∷ b3 ∷ []
    → (b0 ≡ false) ⊎ (c ≡ true)
    → justifier_of (justify_session p c s)
      ≡ justify epoch_of
          (justifier_of s)
          (s.previous_epoch, s.previous_epoch_number)
          (s.current_epoch, s.current_epoch_number)
          p
          c
unfolding justify_session shift_from_second justify shift_bits justifier_of
justify_session_lem p c s b0 b1 b2 b3 e first = ground arith

-- Both halves, whichever targets are reached.
session_lem :
    (p c : Bool) (s : Casper) (b0 b1 b2 b3 : Bool)
    → s.justification_bits ≡ b0 ∷ b1 ∷ b2 ∷ b3 ∷ []
    → (b0 ≡ false) ⊎ (c ≡ true)
    → outcome epoch_of
        (justifier_of s)
        (s.previous_epoch, s.previous_epoch_number)
        (s.current_epoch, s.current_epoch_number)
        p
        c
      ≡ justifier_of (
          finalize_session s.previous_justified_epoch s.previous_justified_epoch_number
            s.current_justified_epoch s.current_justified_epoch_number
            (justify_session p c s))
unfolding outcome justify_session justifier_of
session_lem p c s b0 b1 b2 b3 e first = sym (
    finalize_session_lem s.previous_justified_epoch s.previous_justified_epoch_number
      s.current_justified_epoch s.current_justified_epoch_number (justify_session p c s)
    ∙ ap
        (λ (j : Justifier Epoch). record j {
          finalized_checkpoint =
              finalize epoch_of j.justification_bits
                (s.previous_justified_epoch, s.previous_justified_epoch_number)
                (s.current_justified_epoch, s.current_justified_epoch_number) s.current_epoch
                (s.finalized_epoch, s.finalized_epoch_number);
        })
        (justify_session_lem p c s b0 b1 b2 b3 e first))

-- A registry that weighs the two targets as the pallet does.
pub record Answers (s : Casper) (registry : JustifierRegistry Epoch) : Type 0 where
  pub total : registry.total_active_balance ≡ ok (total_of s)
  pub previous :
      registry.attesting_target_balance (s.previous_epoch, s.previous_epoch_number)
      ≡ ok (previous_of s)
  pub current :
      registry.attesting_target_balance (s.current_epoch, s.current_epoch_number)
      ≡ ok (current_of s)

-- Where the first bit is clear or the current target reaches two thirds, a new session does to the
-- justified and finalized epochs what the justifier of the beacon chain does with the same balances,
-- for four justification bits.
pub on_new_session-process :
    (host : Host) (changed : Bool) (new_validators : List Bytes) (s : Casper)
    (registry : JustifierRegistry Epoch) (b0 b1 b2 b3 : Bool)
    → Answers s registry
    → s.justification_bits ≡ b0 ∷ b1 ∷ b2 ∷ b3 ∷ []
    → (b0 ≡ false) ⊎ (reaches (current_of s) (total_of s) ≡ true)
    → process epoch_of
        (justifier_of s)
        (s.previous_epoch, s.previous_epoch_number)
        (s.current_epoch, s.current_epoch_number)
        registry
      ≡ ok (justifier_of (on_new_session host changed new_validators s))
unfolding on_new_session process start_epoch outcome justifier_of
on_new_session-process host changed new_validators s registry b0 b1 b2 b3 answers bits first =
    let p = reaches (previous_of s) (total_of s) in
    let c = reaches (current_of s) (total_of s) in
    rw (answers.previous, answers.total, answers.current)
      (ap ok (session_lem p c s b0 b1 b2 b3 bits first))

-- A first bit that is set is set for ever, whatever the votes.
pub on_new_session-first_bit :
    (host : Host) (changed : Bool) (new_validators : List Bytes) (s : Casper) (rest : List Bool)
    → s.justification_bits ≡ true ∷ rest
    → get_or (on_new_session host changed new_validators s).justification_bits 0 false ≡ true
unfolding on_new_session justify_session finalize_session finalize_when start_epoch
    shift_from_second
on_new_session-first_bit host changed new_validators s rest e = ground arith

-- A session whose current target does not reach two thirds finalizes the epoch that was justified
-- before, where the first of four bits is set, that epoch is the one before the current, and the epoch
-- does not wrap.
pub on_new_session_unvoted :
    (host : Host) (changed : Bool) (new_validators : List Bytes) (s : Casper) (b1 b2 b3 : Bool)
    → s.justification_bits ≡ true ∷ b1 ∷ b2 ∷ b3 ∷ []
    → reaches (current_of s) (total_of s) ≡ false
    → s.current_justified_epoch + 1 ≡ s.current_epoch
    → s.current_epoch < u64_mod
    → (on_new_session host changed new_validators s).finalized_epoch ≡ s.current_justified_epoch
unfolding on_new_session justify_session finalize_session finalize_when start_epoch
    shift_from_second
on_new_session_unvoted host changed new_validators s b1 b2 b3 e unreached last small = ground arith
