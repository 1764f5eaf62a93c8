-- ===== src/Executive/Mutators/Exit.antt =====
-- The exit queue: `initiate_validator_exit` of beacon/src/executive/helpers/mutators.rs.
use shasper.Prelude.{
  ℕ, zero, suc, ◌+◌, ◌≤◌, ◌<◌, ◌≡◌, arith, Bool-cases, inl, inr, List, [], ◌∷◌, count, leb, ◌==◌,
  max, add64, u64_max, Bool, set, get_elem?, some, refl, true, ◌∙◌,
}
use shasper.Types.{BeaconState, Validator}
use shasper.Config.{Config}
use shasper.Utils.{far_future_epoch, activation_exit_epoch}
use shasper.Executive.Accessors.{current_epoch, validator_churn_limit}
use shasper.Outcome.{ok, index}
use shasper.Executive.Monad.{reads, gets, when}
use shasper.Executive.Runs.{steps_bind, steps_index, steps_modify_validator}
use shasper.Executive.Mutators.{last_exit_epoch, exit_queue_epoch, initiate_validator_exit}

-- Where nobody exits at `e` or later, nobody exits at `e`.
count_above :
    (vs : List Validator) (e : ℕ)
    → last_exit_epoch vs < e
    → e < u64_max
    → count (λ v. v.exit_epoch == e) vs ≡ 0
unfolding last_exit_epoch
count_above [] e h small = omega arith
count_above (v ∷ vs) e h small = ground (arith, count_above vs e)

validator_churn_limit_pos :
    (C : Config) (s : BeaconState) → 0 < C.min_per_epoch_churn_limit → 0 < validator_churn_limit C s
unfolding validator_churn_limit
validator_churn_limit_pos C s h = omega arith

-- The epoch of the queue is no earlier than the delay allows, and there is room at it.
exit_queue_epoch-lt-limit :
    (C : Config) (s : BeaconState)
    → 0 < C.min_per_epoch_churn_limit
    → max (last_exit_epoch s.validators) (activation_exit_epoch C (current_epoch C s)) + 1 < u64_max
    → (activation_exit_epoch C (current_epoch C s) ≤ exit_queue_epoch C s)
      × (count (λ v. v.exit_epoch == exit_queue_epoch C s) s.validators < validator_churn_limit C s)
unfolding exit_queue_epoch
exit_queue_epoch-lt-limit C s pos small =
    let queue_epoch =
      max (last_exit_epoch s.validators) (activation_exit_epoch C (current_epoch C s)) in
    let churn = count (λ v. v.exit_epoch == queue_epoch) s.validators in
    let limit = validator_churn_limit_pos C s pos in
    elim (Bool-cases (leb (validator_churn_limit C s) churn)) [
      | inl full ↦
          let next : add64 queue_epoch 1 ≡ queue_epoch + 1 = omega arith in
          let none_at = count_above s.validators (queue_epoch + 1) (omega arith) (omega arith) in
          rw (full, next) (omega arith, omega (arith, none_at, limit))
      | inr room ↦ rw room (omega arith, ground (arith, room))
    ]

count-set-le :
    (p : Validator → Bool) (vs : List Validator) (i : ℕ) (v : Validator)
    → count p (set vs i v) ≤ count p vs + 1
count-set-le p [] i v = omega arith
count-set-le p (x ∷ vs) zero v = ground arith
count-set-le p (x ∷ vs) (suc i) v = ground (arith, count-set-le p vs i v)

-- Where validator `i` has no exit epoch yet, `initiate_validator_exit` succeeds and changes only that
-- validator: it sets the exit epoch, no earlier than the activation and exit delay allows, and the
-- withdrawable epoch after it. At most as many validators as the churn limit then exit at that epoch.
-- (The least churn limit is positive, and the epochs in the queue are below the last two numbers of
-- 64 bits.)
pub initiate_validator_exit-churn :
    (C : Config) (s : BeaconState) (i : ℕ) (v : Validator)
    → 0 < C.min_per_epoch_churn_limit
    → max (last_exit_epoch s.validators) (activation_exit_epoch C (current_epoch C s)) + 1 < u64_max
    → get_elem? s.validators i ≡ some v
    → v.exit_epoch ≡ far_future_epoch
    → (e : ℕ) × (s' : BeaconState) × (initiate_validator_exit C i s ≡ (ok tt, s'))
      × (s' ≡ record s {
        validators = set s.validators i (record v {
          exit_epoch = e;
          withdrawable_epoch = add64 e C.min_validator_withdrawability_delay;
        });
      })
      × (activation_exit_epoch C (current_epoch C s) ≤ e)
      × (count (λ x. x.exit_epoch == e) s'.validators ≤ validator_churn_limit C s)
unfolding initiate_validator_exit gets when
initiate_validator_exit-churn C s i v pos small at far =
    let e = exit_queue_epoch C s in
    let (late, room) = exit_queue_epoch-lt-limit C s pos small in
    let w : Validator = record v {
      exit_epoch = e;
      withdrawable_epoch = add64 e C.min_validator_withdrawability_delay;
    } in
    let fits = count-set-le (λ x. x.exit_epoch == e) s.validators i w in
    let due : (v.exit_epoch == far_future_epoch) ≡ true = ground arith in
    let run =
      steps_bind (reads (λ x. index x.validators i)) _ (steps_index (λ x. x.validators) i at)
      ∙ steps_bind (gets (exit_queue_epoch C)) _ refl
      ∙ rw due (steps_modify_validator i _ s at) in
    (e, _, run, refl, late, omega (arith, fits, room))
