-- ===== src/Pallet/Attested.antt =====
-- What `attest` of the Casper pallet accepts.
use shasper.Prelude.{
  ◌≡◌, ◌↔◌, ◌⊎◌, refl, sym, ap, ◌∙◌, inl, inr, ℕ, ◌+◌, ◌%◌, ◌^◌, List, [], ◌∷◌, ◌++◌, Bool, true,
  Bytes, bytes_eq, bytes_eq_iff, arith, ◌&&◌, length, length-append, Bool-cases,
}
use mathlib.Core.List.{Memᴰ}
use shasper.Results.{ok}
use shasper.Pallet.{
  Casper, Attestation, Checkpoint, Host, attest, push_previous, push_current, in_session,
  checkpoint_eq, checkpoint_of, on_new_previous_epoch_attestation, on_new_current_epoch_attestation,
}
use shasper.Pallet.Slashed.{checkpoint_eq_iff}

both_eq_iff :
    (c d c' d' : Checkpoint)
    → ((checkpoint_eq c d && checkpoint_eq c' d') ≡ true) ↔ ((c ≡ d) × (c' ≡ d'))
both_eq_iff c d c' d' = ground (arith, checkpoint_eq_iff c d, checkpoint_eq_iff c' d')

in_session-Memᴰ :
    (key : Bytes) (validators : List (Bytes × ℕ))
    → in_session key validators ≡ true
    → (weight : ℕ) × Memᴰ (key, weight) validators
unfolding in_session
in_session-Memᴰ key [] e = absurd (cc)
in_session-Memᴰ key ((k, w) ∷ vs) e = elim (Bool-cases (bytes_eq k key)) [
  | inl same ↦ (w, Memᴰ.head (ap (λ (j : Bytes). (j, w)) (sym ((bytes_eq_iff k key).0 same))))
  | inr other ↦ let (weight, m) = in_session-Memᴰ key vs (rw other at e) in (weight, Memᴰ.tail m)
]

Memᴰ-in_session :
    (key : Bytes) (weight : ℕ) (validators : List (Bytes × ℕ))
    → Memᴰ (key, weight) validators
    → in_session key validators ≡ true
unfolding in_session
Memᴰ-in_session key weight [] m = elim m [ ]
Memᴰ-in_session key weight ((k, w) ∷ vs) (Memᴰ.head e) =
    rw ((bytes_eq_iff k key).1 (sym (ap (λ p. p.0) e))) refl
Memᴰ-in_session key weight ((k, w) ∷ vs) (Memᴰ.tail m) =
    ground (arith, Memᴰ-in_session key weight vs m)

module _ (host : Host) where
  -- The vote is for the previous epoch of the storage, or for the current one.
  abbrev pub ForPrevious : Attestation → Casper → Type 0
  ForPrevious a s =
      (a.source ≡ checkpoint_of host s.previous_justified_epoch s.previous_justified_epoch_number)
      × (a.target ≡ checkpoint_of host s.previous_epoch s.previous_epoch_number)

  abbrev pub ForCurrent : Attestation → Casper → Type 0
  ForCurrent a s =
      (a.source ≡ checkpoint_of host s.current_justified_epoch s.current_justified_epoch_number)
      × (a.target ≡ checkpoint_of host s.current_epoch s.current_epoch_number)

  -- The state after the vote is put among those of its epoch.
  abbrev pub with_previous : Attestation → Casper → Casper
  with_previous a s = record s {
    previous_epoch_attestations = s.previous_epoch_attestations ++ a ∷ [];
    previous_epoch_attestations_count = (length s.previous_epoch_attestations + 1) % 2 ^ 32;
    events = s.events ++ on_new_previous_epoch_attestation a ∷ [];
  }

  abbrev pub with_current : Attestation → Casper → Casper
  with_current a s = record s {
    current_epoch_attestations = s.current_epoch_attestations ++ a ∷ [];
    current_epoch_attestations_count = (length s.current_epoch_attestations + 1) % 2 ^ 32;
    events = s.events ++ on_new_current_epoch_attestation a ∷ [];
  }

  push_previous_lem : (a : Attestation) (s : Casper) → push_previous host a s ≡ with_previous a s
  unfolding push_previous
  push_previous_lem a s = rw (length-append s.previous_epoch_attestations (a ∷ [])) refl

  push_current_lem : (a : Attestation) (s : Casper) → push_current host a s ≡ with_current a s
  unfolding push_current
  push_current_lem a s = rw (length-append s.current_epoch_attestations (a ∷ [])) refl

  pub record Accepted (from_none : Bool) (a : Attestation) (signature : Bytes) (s s' : Casper)
      : Type 0 where
    pub unsigned : from_none ≡ true
    pub validator : (weight : ℕ) × Memᴰ (a.validator_id, weight) s.validators
    pub signed : host.verify a.validator_id (host.encode a) signature ≡ true
    pub pushed :
        (ForPrevious a s × (s' ≡ with_previous a s))
        ⊎ (¬ (ForPrevious a s) × ForCurrent a s × (s' ≡ with_current a s))

  -- The two tests of `attest`.
  abbrev pub is_previous : Attestation → Casper → Bool
  is_previous a s =
      checkpoint_eq a.source
        (checkpoint_of host s.previous_justified_epoch s.previous_justified_epoch_number)
      && checkpoint_eq a.target (checkpoint_of host s.previous_epoch s.previous_epoch_number)

  abbrev pub is_current : Attestation → Casper → Bool
  is_current a s =
      checkpoint_eq a.source
        (checkpoint_of host s.current_justified_epoch s.current_justified_epoch_number)
      && checkpoint_eq a.target (checkpoint_of host s.current_epoch s.current_epoch_number)

  pub is_previous_iff : (a : Attestation) (s : Casper) → (is_previous a s ≡ true) ↔ ForPrevious a s
  is_previous_iff a s =
      both_eq_iff a.source
        (checkpoint_of host s.previous_justified_epoch s.previous_justified_epoch_number) a.target
        (checkpoint_of host s.previous_epoch s.previous_epoch_number)

  pub is_current_iff : (a : Attestation) (s : Casper) → (is_current a s ≡ true) ↔ ForCurrent a s
  is_current_iff a s =
      both_eq_iff a.source
        (checkpoint_of host s.current_justified_epoch s.current_justified_epoch_number) a.target
        (checkpoint_of host s.current_epoch s.current_epoch_number)

  -- `attest` succeeds exactly on a signed vote of a validator in the list of the session for one of the
  -- two epochs, where the previous one goes first; then the vote stands at the end of the list of that
  -- epoch, its count is the length of that list, an event is added, and nothing else changes.
  pub attest-Accepted :
      (from_none : Bool) (a : Attestation) (signature : Bytes) (s s' : Casper)
      → (attest host from_none a signature s ≡ ok s') ↔ Accepted from_none a signature s s'
  unfolding attest
  attest-Accepted from_none a signature s s' = (accepts, runs)
    where
      pushes :
          attest host from_none a signature s ≡ ok s'
          → (ForPrevious a s × (s' ≡ with_previous a s))
            ⊎ (¬ (ForPrevious a s) × ForCurrent a s × (s' ≡ with_current a s))
      pushes ran = elim (Bool-cases (is_previous a s)) [
        | inl previous ↦
            let pushed : s' ≡ push_previous host a s = ground arith in
            inl ((is_previous_iff a s).0 previous, pushed ∙ push_previous_lem a s)
        | inr other ↦
            let pushed : s' ≡ push_current host a s = ground arith in
            inr (
              λ h. ground (arith, (is_previous_iff a s).1 h),
              (is_current_iff a s).0 (ground arith),
              pushed ∙ push_current_lem a s,
            )
      ]

      accepts : attest host from_none a signature s ≡ ok s' → Accepted from_none a signature s s'
      accepts ran = record {
        unsigned = ground arith;
        validator = in_session-Memᴰ a.validator_id s.validators (ground arith);
        signed = ground arith;
        pushed = pushes ran;
      }

      runs : Accepted from_none a signature s s' → attest host from_none a signature s ≡ ok s'
      runs h =
          let (weight, member) = h.validator in
          let there = Memᴰ-in_session a.validator_id weight s.validators member in
          elim h.pushed [
            | inl (previous, e) ↦
                let same : s' ≡ push_previous host a s = e ∙ sym (push_previous_lem a s) in
                ground (arith, same, h.unsigned, there, h.signed, (is_previous_iff a s).1 previous)
            | inr (other, current, e) ↦
                let same : s' ≡ push_current host a s = e ∙ sym (push_current_lem a s) in
                ground (
                  arith,
                  same,
                  h.unsigned,
                  there,
                  h.signed,
                  (is_current_iff a s).1 current,
                  is_previous_iff a s,
                )
          ]
