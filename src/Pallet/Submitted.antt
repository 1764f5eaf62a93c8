-- ===== src/Pallet/Submitted.antt =====
-- The attestations that the off-chain worker of the Casper pallet submits are accepted.
use mathlib.Core.List.{Memᴰ}
use mathlib.Core.List.Memᴰ.{not-nil}
use shasper.Prelude.{
  ℕ, ◌≡◌, ap, sym, ◌⊎◌, inl, inr, Bool, true, List, [], ◌∷◌, Bytes, arith, if◌then◌else◌, ◌==◌,
  Bool-cases, Option-cases, subst, bytes_eq_refl, some,
}
use shasper.Results.{Result, ok, err, panic, diverge}
use shasper.Pallet.{
  Refusal, Casper, Attestation, Host, attest, push_previous, push_current, in_session,
}
use shasper.Pallet.Offchain.{
  after_submit, Sent, offchain, submit_loop, submit_attestation, local_attestation, is_local,
}
use shasper.Pallet.Attested.{is_previous, is_current_iff}

after_submit-Memᴰ :
    (r : Result Refusal (Attestation × Bytes)) (rest : Sent) (sent : Attestation × Bytes)
    → Memᴰ sent (after_submit r rest).0
    → (r ≡ ok sent) ⊎ Memᴰ sent rest.0
unfolding after_submit
after_submit-Memᴰ (ok last) rest sent (Memᴰ.head e) = inl (ap ok (sym e))
after_submit-Memᴰ (ok last) rest sent (Memᴰ.tail m) = inr m
after_submit-Memᴰ (err e) rest sent m = elim m [ ]
after_submit-Memᴰ panic rest sent m = elim m [ ]
after_submit-Memᴰ diverge rest sent m = elim m [ ]

in_session_head :
    (key : Bytes) (w : ℕ) (vs : List (Bytes × ℕ)) → in_session key ((key, w) ∷ vs) ≡ true
unfolding in_session
in_session_head key w vs = rw (bytes_eq_refl key)

in_session_tail :
    (key k : Bytes) (w : ℕ) (vs : List (Bytes × ℕ))
    → in_session key vs ≡ true
    → in_session key ((k, w) ∷ vs) ≡ true
unfolding in_session
in_session_tail key k w vs h = ground arith

module _ (host : Host)
    (sign-verify : (key message signature : Bytes)
      → host.sign key message ≡ some signature
      → host.verify key message signature ≡ true) where
  submit_signed :
      (a b : Attestation) (signature : Bytes)
      → submit_attestation host a ≡ ok (b, signature)
      → (a ≡ b) × (host.verify a.validator_id (host.encode a) signature ≡ true)
  unfolding submit_attestation
  submit_signed a b signature ran = elim (Option-cases (host.sign a.validator_id (host.encode a))) [
    | inl none_signed ↦ absurd (ground arith)
    | inr (sig, signed) ↦ elim (Option-cases (host.new_extrinsic a sig)) [
      | inl no_extrinsic ↦ absurd (ground arith)
      | inr (ex, made) ↦ ground (arith, sign-verify a.validator_id (host.encode a) sig signed)
    ]
  ]

  local_accepted :
      (key signature : Bytes) (s : Casper)
      → in_session key s.validators ≡ true
      → host.verify key (host.encode (local_attestation host key s)) signature ≡ true
      → (s' : Casper) × (attest host true (local_attestation host key s) signature s ≡ ok s')
  unfolding local_attestation
  local_accepted key signature s member signed =
      let a = local_attestation host key s in
      elim (Bool-cases (is_previous host a s)) [
        | inl previous ↦ (push_previous host a s, unfold attest in ground arith)
        | inr other ↦
            (push_current host a s, unfold attest in ground (arith, is_current_iff host a s))
      ]

  loop_accepted :
      (vs : List (Bytes × ℕ)) (s : Casper) (a : Attestation) (signature : Bytes)
      → ((key : Bytes) → in_session key vs ≡ true → in_session key s.validators ≡ true)
      → Memᴰ (a, signature) (submit_loop host vs s).0
      → (s' : Casper) × (attest host true a signature s ≡ ok s')
  unfolding submit_loop local_attestation
  loop_accepted [] s a signature member h = elim h [ ]
  loop_accepted ((key, w) ∷ vs) s a signature member h =
      let rest = submit_loop host vs s in
      let others =
        loop_accepted vs s a signature (λ k m. member k (in_session_tail k key w vs m)) in
      elim (Bool-cases (is_local key host.local_keys)) [
        | inl present ↦
            elim (after_submit-Memᴰ _ rest (a, signature)
              (subst
                (λ (b : Bool).
                  Memᴰ (a, signature)
                    (if b
                      then after_submit (submit_attestation host (local_attestation host key s))
                          rest
                      else rest).0)
                present h)) [
                  | inl sent ↦
                      let (same, signed) =
                        submit_signed (local_attestation host key s) a signature sent in
                      let (s', ran) =
                        local_accepted key signature s (member key (in_session_head key w vs))
                          signed in
                      (
                        s',
                        subst (λ (x : Attestation). attest host true x signature s ≡ ok s') same
                            ran,
                      )
                  | inr later ↦ others later
                ]
        | inr absent ↦ others (
            subst
              (λ (b : Bool).
                Memᴰ (a, signature)
                  (if b
                    then after_submit (submit_attestation host (local_attestation host key s)) rest
                    else rest).0)
              absent h)
      ]

  -- Where a signature of the keystore verifies, every attestation that the off-chain worker submits is
  -- one that `attest` accepts in the same state.
  pub offchain-attest :
      (n : ℕ) (s : Casper) (a : Attestation) (signature : Bytes)
      → Memᴰ (a, signature) (offchain host n s).0
      → (s' : Casper) × (attest host true a signature s ≡ ok s')
  unfolding offchain
  offchain-attest n s a signature h = elim (Bool-cases (n == host.add_one s.current_epoch_number)) [
    | inl now ↦
        loop_accepted s.validators s a signature (λ key m. m)
          (subst
            (λ (b : Bool).
              Memᴰ (a, signature) (if b then submit_loop host s.validators s else ([], ok tt)).0)
            now h)
    | inr later ↦ absurd (
        not-nil (
          subst
            (λ (b : Bool).
              Memᴰ (a, signature) (if b then submit_loop host s.validators s else ([], ok tt)).0)
            later h))
  ]
