-- ===== src/Pallet/Offchain.antt =====
-- The off-chain worker (substrate/casper/pallet/src/lib.rs): at the first block after an epoch started
-- it signs and submits an attestation for each validator whose key is on the machine.
use shasper.Prelude.{
  ℕ, Bool, true, false, List, [], ◌∷◌, ◌==◌, if◌then◌else◌, Bytes, bytes_eq, Option, none, some,
}
use shasper.Results.{Result, ok, err, panic, diverge, ◌>>=◌, ◌>>◌, require}
use shasper.Pallet.{
  Casper, Attestation, Host, Refusal, signing_failed, create_unsigned_failed, submit_failed,
  checkpoint_of,
}

-- `local_keys.binary_search(key)` on the sorted keys.
unfoldable pub is_local : Bytes → List Bytes → Bool
is_local key [] = false
is_local key (k ∷ ks) = if bytes_eq k key then true else is_local key ks

-- `o.ok_or(e)`
abbrev pub ok_or : Option Bytes → Refusal → Result Refusal Bytes
ok_or none e = err e
ok_or (some a) e = ok a

abbrev pub Sent : Type 0
Sent = List (Attestation × Bytes) × Result Refusal (Unit {0})

-- The loop goes on after a submission, and ends at a failure.
unfoldable pub after_submit : Result Refusal (Attestation × Bytes) → Sent → Sent
after_submit (ok sent) (rest, end) = (sent ∷ rest, end)
after_submit (err e) rest = ([], err e)
after_submit panic rest = ([], panic)
after_submit diverge rest = ([], diverge)

module _ (host : Host) where
  unfoldable pub local_attestation : Bytes → Casper → Attestation
  local_attestation key s = record {
    validator_id = key;
    source = checkpoint_of host s.current_justified_epoch s.current_justified_epoch_number;
    target = checkpoint_of host s.current_epoch s.current_epoch_number;
  }

  unfoldable pub submit_attestation : Attestation → Result Refusal (Attestation × Bytes)
  submit_attestation a = do
    signature ← ok_or (host.sign a.validator_id (host.encode a)) signing_failed
    ex ← ok_or (host.new_extrinsic a signature) create_unsigned_failed
    require (host.submit_transaction ex) submit_failed >> ok (a, signature)

  -- What was submitted, also where a later validator fails, and how the loop ended.
  unfoldable pub submit_loop : List (Bytes × ℕ) → Casper → Sent
  unfolding is_local local_attestation submit_attestation after_submit
  submit_loop [] s = ([], ok tt)
  submit_loop ((key, weight) ∷ vs) s =
      let rest = submit_loop vs s in
      if is_local key host.local_keys
      then after_submit (submit_attestation (local_attestation key s)) rest
      else rest

  unfoldable pub offchain : ℕ → Casper → Sent
  unfolding submit_loop
  offchain n s =
      if n == host.add_one s.current_epoch_number then submit_loop s.validators s else ([], ok tt)
