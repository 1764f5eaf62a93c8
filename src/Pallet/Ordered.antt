-- ===== src/Pallet/Ordered.antt =====
-- The epochs of the Casper pallet stay in order through every call and every new session.
use shasper.Prelude.{
  ℕ, ◌+◌, ◌≤◌, ◌<◌, ◌≡◌, refl, ap, Bool, List, Bytes, arith, ◌==◌, ◌&&◌, Bool-cases, inl, inr,
  u64_mod, add64,
}
use shasper.Results.{ok, >>=-eq-ok, index, update}
use shasper.Justifier.{all_set}
use shasper.Pallet.{Casper, Attestation, Host, slash, attest, push_previous, push_current}
use shasper.Pallet.Session.{
  total_balance, matching_target_balance, reaches, on_new_session, on_disabled, justify_session,
  finalize_session, finalize_when, start_epoch,
}

pub record IsOrdered (s : Casper) : Type 0 where
  pub finalized_before : s.finalized_epoch ≤ s.previous_justified_epoch
  pub justified_before : s.previous_justified_epoch ≤ s.current_justified_epoch
  pub previous_before : s.current_justified_epoch ≤ s.previous_epoch
  pub current_before : s.previous_epoch ≤ s.current_epoch

-- What may happen in a block. The framework is another one in each block, since hashes and numbers go on.
pub data Step : Casper → Casper → Type 0 where
  attesting :
      (host : Host) (from_none : Bool) (a : Attestation) (signature : Bytes) {s s' : Casper}
      → attest host from_none a signature s ≡ ok s'
      → Step s s'
  slashing :
      (host : Host) (from_none : Bool) (a b : Attestation) (sig_1 sig_2 : Bytes) {s s' : Casper}
      → slash host from_none a sig_1 b sig_2 s ≡ ok s'
      → Step s s'
  session :
      (host : Host) (changed : Bool) (new_validators : List Bytes) {s : Casper}
      → s.current_epoch + 1 < u64_mod
      → Step s (on_new_session host changed new_validators s)
  disabling : (i : ℕ) {s s' : Casper} → on_disabled i s ≡ ok s' → Step s s'

pub data Steps (s : Casper) : Casper → Type 0 where
  stay : Steps s s
  more : {s' s'' : Casper} → Steps s s' → Step s' s'' → Steps s s''

-- What a step keeps of the epochs: nothing else is read below.
pub record Grows (s s' : Casper) : Type 0 where
  pub finalized_grows : s.finalized_epoch ≤ s'.finalized_epoch
  pub justified_grows : s.current_justified_epoch ≤ s'.current_justified_epoch
  pub current_grows : s.current_epoch ≤ s'.current_epoch

abbrev pub epochs : Casper → ℕ × ℕ × ℕ × ℕ × ℕ
epochs s = (
  s.finalized_epoch, s.previous_justified_epoch, s.current_justified_epoch, s.previous_epoch,
  s.current_epoch,
)

pub attest-epochs :
    (host : Host) (from_none : Bool) (a : Attestation) (signature : Bytes) (s s' : Casper)
    → attest host from_none a signature s ≡ ok s'
    → epochs s' ≡ epochs s
unfolding attest push_previous push_current
attest-epochs host from_none a signature s s' ran = ground arith

pub slash-epochs :
    (host : Host) (from_none : Bool) (a b : Attestation) (sig_1 sig_2 : Bytes) (s s' : Casper)
    → slash host from_none a sig_1 b sig_2 s ≡ ok s'
    → epochs s' ≡ epochs s
unfolding slash
slash-epochs host from_none a b sig_1 sig_2 s s' ran = ground arith

pub on_disabled-epochs : (i : ℕ) (s s' : Casper) → on_disabled i s ≡ ok s' → epochs s' ≡ epochs s
unfolding on_disabled
on_disabled-epochs i s s' ran =
    let (v, _, ran_1) = >>=-eq-ok (index s.validators i) _ ran in
    let (vs, _, ran_2) = >>=-eq-ok (update s.validators i (v.0, 0)) _ ran_1 in ground arith

-- The first half of the handler: the justified epoch moves up, to the previous epoch or the current one.
record Justified (s s' : Casper) : Type 0 where
  moved : s'.previous_justified_epoch ≡ s.current_justified_epoch
  raised : s.current_justified_epoch ≤ s'.current_justified_epoch
  bounded : s'.current_justified_epoch ≤ s.current_epoch
  kept_finalized : s'.finalized_epoch ≡ s.finalized_epoch
  kept_current : s'.current_epoch ≡ s.current_epoch

justify_session-Justified :
    (p c : Bool) (s : Casper) → IsOrdered s → Justified s (justify_session p c s)
unfolding justify_session
justify_session-Justified p c s o = record {
  moved = refl;
  raised = ground (arith, o.previous_before, o.current_before);
  bounded = ground (arith, o.previous_before, o.current_before);
  kept_finalized = refl;
  kept_current = refl;
}

-- The state with another finalized epoch, between two bounds.
record Finalized (low high : ℕ) (s s' : Casper) : Type 0 where
  finalized : ℕ
  number : ℕ
  result : s' ≡ record s { finalized_epoch = finalized; finalized_epoch_number = number }
  above : low ≤ finalized
  below : finalized ≤ high

-- One of the tests of the second half, and all four.
finalize_when-Finalized :
    (from n ago epoch number : ℕ) {low high : ℕ} (s : Casper) {s' : Casper}
    → low ≤ epoch
    → epoch ≤ high
    → Finalized low high s s'
    → Finalized low high s (finalize_when from n ago epoch number s')
unfolding finalize_when
finalize_when-Finalized from n ago epoch number s {s'} p q f =
    elim (Bool-cases
      (all_set s'.justification_bits from n && (add64 epoch ago == s'.current_epoch))) [
        | inl passed ↦ rw passed (record {
          finalized = epoch;
          number = number;
          result =
              ap
                (λ (t : Casper). record t {
                  finalized_epoch = epoch;
                  finalized_epoch_number = number;
                })
                f.result;
          above = p;
          below = q;
        })
        | inr failed ↦ rw failed f
      ]

finalize_session-Finalized :
    (previous previous_number current current_number : ℕ) (s : Casper)
    → s.finalized_epoch ≤ previous
    → previous ≤ current
    → Finalized s.finalized_epoch current s
        (finalize_session previous previous_number current current_number s)
unfolding finalize_session
finalize_session-Finalized previous previous_number current current_number s p q =
    finalize_when-Finalized 0 2 1 current current_number s (omega arith) (omega arith) (
      finalize_when-Finalized 0 3 2 current current_number s (omega arith) (omega arith) (
        finalize_when-Finalized 1 2 2 previous previous_number s p q
          (finalize_when-Finalized 1 3 3 previous previous_number s p q start)))
  where
    start : Finalized s.finalized_epoch current s s
    start = record {
      finalized = s.finalized_epoch;
      number = s.finalized_epoch_number;
      result = refl;
      above = omega arith;
      below = omega arith;
    }

-- Both halves and the start of the next epoch, whichever targets are reached.
session-IsOrdered :
    (host : Host) (changed : Bool) (new_validators : List Bytes) (p c : Bool) (s t : Casper)
    → s.current_epoch + 1 < u64_mod
    → IsOrdered s
    → Finalized
        (justify_session p c s).finalized_epoch
        s.current_justified_epoch
        (justify_session p c s)
        t
    → IsOrdered (start_epoch host changed new_validators t)
      × Grows s (start_epoch host changed new_validators t)
unfolding start_epoch
session-IsOrdered host changed new_validators p c s t small o f =
    let j = justify_session-Justified p c s o in
    rw f.result (
      record {
        finalized_before = ground (arith, f.below, j.moved);
        justified_before = ground (arith, j.moved, j.raised);
        previous_before = ground (arith, j.bounded, j.kept_current);
        current_before = ground (arith, j.kept_current);
      },
      record {
        finalized_grows = ground (arith, f.above, j.kept_finalized);
        justified_grows = j.raised;
        current_grows = ground (arith, j.kept_current);
      },
    )

pub on_new_session-IsOrdered :
    (host : Host) (changed : Bool) (new_validators : List Bytes) (s : Casper)
    → s.current_epoch + 1 < u64_mod
    → IsOrdered s
    → IsOrdered (on_new_session host changed new_validators s)
      × Grows s (on_new_session host changed new_validators s)
unfolding on_new_session
on_new_session-IsOrdered host changed new_validators s small o =
    let total = total_balance 0 s.validators in
    let p = reaches (matching_target_balance s.validators 0 s.previous_epoch_attestations) total in
    let c = reaches (matching_target_balance s.validators 0 s.current_epoch_attestations) total in
    let j = justify_session-Justified p c s o in
    let t =
      finalize_session s.previous_justified_epoch s.previous_justified_epoch_number
        s.current_justified_epoch s.current_justified_epoch_number (justify_session p c s) in
    session-IsOrdered host changed new_validators p c s t small o (
      finalize_session-Finalized s.previous_justified_epoch s.previous_justified_epoch_number
        s.current_justified_epoch s.current_justified_epoch_number (justify_session p c s)
        (ground (arith, j.kept_finalized, o.finalized_before)) o.justified_before)
