-- ===== src/Pallet/Recounted.antt =====
-- How a new session of the Casper pallet counts attestations that are pushed again.
use shasper.Prelude.{
  ℕ, ◌≡◌, refl, sym, ◌⊎◌, inl, inr, Bool, List, [], ◌∷◌, ◌++◌, Bytes, subst, add64,
}
use shasper.Results.{ok}
use shasper.Pallet.{Casper, Attestation, Host, attest}
use shasper.Pallet.Session.{matching_target_balance, validator_weight}
use shasper.Pallet.Attested.{Accepted, attest-Accepted, with_previous, with_current}

matching_target_balance-append :
    (validators : List (Bytes × ℕ)) (acc : ℕ) (votes : List Attestation) (a : Attestation)
    → matching_target_balance validators acc (votes ++ a ∷ [])
      ≡ add64
          (matching_target_balance validators acc votes)
          (validator_weight a.validator_id validators)
unfolding matching_target_balance
matching_target_balance-append validators acc [] a = refl
matching_target_balance-append validators acc (b ∷ votes) a =
    matching_target_balance-append validators
      (add64 acc (validator_weight b.validator_id validators)) votes a

module _ (host : Host) where
  -- An accepted attestation is accepted again, and each time the weight of its validator is added to
  -- what a new session counts.
  pub attest_again :
      (from_none : Bool) (a : Attestation) (signature : Bytes) (s s' : Casper)
      → attest host from_none a signature s ≡ ok s'
      → (s'' : Casper) × (attest host from_none a signature s' ≡ ok s'')
        × (let w = validator_weight a.validator_id s.validators in
            ((matching_target_balance s.validators 0 s''.previous_epoch_attestations
                ≡ add64
                    (add64 (matching_target_balance s.validators 0 s.previous_epoch_attestations) w)
                    w)
              ⊎ (matching_target_balance s.validators 0 s''.current_epoch_attestations
                  ≡ add64
                      (add64
                        (matching_target_balance s.validators 0 s.current_epoch_attestations)
                        w)
                      w)))
  attest_again from_none a signature s s' ran =
      let h = (attest-Accepted host from_none a signature s s').0 ran in
      let again : (t t' : Casper)
          → Accepted host from_none a signature t t'
          → attest host from_none a signature t ≡ ok t' =
        λ t t'. (attest-Accepted host from_none a signature t t').1 in
      let twice : (votes : List Attestation)
          → matching_target_balance s.validators 0 ((votes ++ a ∷ []) ++ a ∷ [])
            ≡ add64
                (add64 (matching_target_balance s.validators 0 votes)
                  (validator_weight a.validator_id s.validators))
                (validator_weight a.validator_id s.validators) =
        λ votes.
          rw
            (
              matching_target_balance-append s.validators 0 (votes ++ a ∷ []) a,
              matching_target_balance-append s.validators 0 votes a,
            )
            refl in
      elim h.pushed [
        | inl (previous, e) ↦
            let t = with_previous host a s in
            (
              with_previous host a t,
              subst
                  (λ (x : Casper).
                    attest host from_none a signature x ≡ ok (with_previous host a t))
                  (sym e)
                  (again t (with_previous host a t) (record {
                    unsigned = h.unsigned;
                    validator = h.validator;
                    signed = h.signed;
                    pushed = inl (previous, refl);
                  })),
              inl (twice s.previous_epoch_attestations),
            )
        | inr (other, current, e) ↦
            let t = with_current host a s in
            (
              with_current host a t,
              subst
                  (λ (x : Casper). attest host from_none a signature x ≡ ok (with_current host a t))
                  (sym e)
                  (again t (with_current host a t) (record {
                    unsigned = h.unsigned;
                    validator = h.validator;
                    signed = h.signed;
                    pushed = inr (other, current, refl);
                  })),
              inr (twice s.current_epoch_attestations),
            )
      ]
