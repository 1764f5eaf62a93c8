-- ===== src/Tests/Pallet.antt =====
-- The Casper pallet on concrete inputs.
use mathlib.Core.List.{Memᴰ}
use shasper.Prelude.{
  ℕ, suc, ◌+◌, ◌<◌, ◌≡◌, ap, ◌∙◌, if◌then◌else◌, ◌==◌, u64_mod, ◌↔◌, ◌⊎◌, inr, refl, arith, true,
  false, [], ◌∷◌, some, Bytes, bytes_eq, bytes_eq_refl, add64,
}
use shasper.Results.{ok}
use shasper.Justifier.{JustifierRegistry, process}
use shasper.Pallet.{
  Casper, Attestation, Host, genesis, slash, attest, push_current, in_session, checkpoint_eq,
}
use shasper.Pallet.Session.{
  on_new_session, matching_target_balance, validator_weight, total_balance, justify_session,
  finalize_session, finalize_when, start_epoch, reaches,
}
use shasper.Pallet.Offchain.{
  offchain, submit_loop, is_local, local_attestation, submit_attestation, after_submit,
}
use shasper.Pallet.Slashed.{Punishable, slash-Punishable, Offence}
use shasper.Pallet.Attested.{Accepted, attest-Accepted, with_current}
use shasper.Pallet.Submitted.{offchain-attest}
use shasper.Pallet.Recounted.{attest_again}
use shasper.Pallet.Ordered.{IsOrdered, Steps, stay, more, session}
use shasper.Pallet.Reached.{Steps-IsOrdered, local_attestation-Offence}
use shasper.Pallet.Refines.{
  Answers, Epoch, epoch_of, justifier_of, total_of, current_of, on_new_session-process,
  on_new_session_unvoted,
}

abbrev alice : Bytes
alice = 1 ∷ []

abbrev bob : Bytes
bob = 2 ∷ []

-- A signature is the key itself; the hash of a block is its number.
abbrev toy : Host
toy = record {
  encode = λ a. a.validator_id;
  verify = λ key message signature. bytes_eq signature key;
  sign = λ key message. some key;
  local_keys = alice ∷ [];
  block_hash = λ number. number ∷ [];
  block_number = 40;
  add_one = suc;
  new_extrinsic = λ a signature. some signature;
  submit_transaction = λ ex. true;
}

-- Epoch 5 of two validators, where the epoch 4 is justified and its bit is still set.
abbrev running : Casper
running = record {
  validators = (alice, 1) ∷ (bob, 1) ∷ [];
  current_epoch = 5;
  current_epoch_number = 30;
  previous_epoch = 4;
  previous_epoch_number = 20;
  previous_justified_epoch = 3;
  previous_justified_epoch_number = 10;
  current_justified_epoch = 4;
  current_justified_epoch_number = 20;
  finalized_epoch = 2;
  finalized_epoch_number = 5;
  current_epoch_attestations = [];
  current_epoch_attestations_count = 0;
  previous_epoch_attestations = [];
  previous_epoch_attestations_count = 0;
  justification_bits = true ∷ false ∷ false ∷ false ∷ [];
  events = [];
  slashed = [];
}

abbrev vote : ℕ → ℕ → Attestation
vote from to = record {
  validator_id = alice;
  source = record { epoch = from; hash = 20 ∷ [] };
  target = record { epoch = to; hash = 30 ∷ [] };
}

slash-Punishable_example :
    (slash toy true (vote 3 6) alice (vote 4 5) alice running
      ≡ ok (record running { slashed = alice ∷ [] }))
    ↔ (Punishable toy true (vote 3 6) alice (vote 4 5) alice
        × (record running { slashed = alice ∷ [] } ≡ record running { slashed = alice ∷ [] }))
slash-Punishable_example =
    slash-Punishable toy true (vote 3 6) (vote 4 5) alice alice running
      (record running { slashed = alice ∷ [] })

attest-Accepted_example :
    (attest toy true (vote 4 5) alice running ≡ ok (with_current toy (vote 4 5) running))
    ↔ Accepted toy true (vote 4 5) alice running (with_current toy (vote 4 5) running)
attest-Accepted_example =
    attest-Accepted toy true (vote 4 5) alice running (with_current toy (vote 4 5) running)

accepted : attest toy true (vote 4 5) alice running ≡ ok (push_current toy (vote 4 5) running)
unfolding attest in_session checkpoint_eq
accepted = refl

attest_again_example :
    (s'' : Casper) × (attest toy true (vote 4 5) alice (push_current toy (vote 4 5) running)
      ≡ ok s'')
    × (let w = validator_weight alice running.validators in
        ((matching_target_balance running.validators 0 s''.previous_epoch_attestations
            ≡ add64 (add64 (matching_target_balance running.validators 0 []) w) w)
          ⊎ (matching_target_balance running.validators 0 s''.current_epoch_attestations
              ≡ add64 (add64 (matching_target_balance running.validators 0 []) w) w)))
attest_again_example =
    attest_again toy true (vote 4 5) alice running (push_current toy (vote 4 5) running) accepted

sent : Memᴰ (vote 4 5, alice) (offchain toy 31 running).0
unfolding offchain submit_loop is_local local_attestation submit_attestation after_submit
sent = Memᴰ.head refl

toy_verifies :
    (key message signature : Bytes)
    → toy.sign key message ≡ some signature
    → toy.verify key message signature ≡ true
toy_verifies key message signature e =
    let same : key ≡ signature = cc in
    ap (λ (k : Bytes). bytes_eq signature k) same ∙ bytes_eq_refl signature

offchain-attest_example : (s' : Casper) × (attest toy true (vote 4 5) alice running ≡ ok s')
offchain-attest_example = offchain-attest toy toy_verifies 31 running (vote 4 5) alice sent

abbrev begun : Casper
begun = genesis ((alice, 1) ∷ [])

next_session : Steps begun (on_new_session toy false [] begun)
next_session =
    let small : begun.current_epoch + 1 < u64_mod = unfold genesis in omega arith in
    more stay (session toy false [] small)

Steps-IsOrdered_example : IsOrdered (on_new_session toy false [] begun)
Steps-IsOrdered_example =
    Steps-IsOrdered ((alice, 1) ∷ []) (on_new_session toy false [] begun) next_session

later : begun.current_epoch < (on_new_session toy false [] begun).current_epoch
unfolding genesis on_new_session justify_session finalize_session finalize_when start_epoch
later = omega arith

local_attestation-Offence_example : ¬ (
    Offence
      (local_attestation toy alice begun)
      (local_attestation toy alice (on_new_session toy false [] begun))
    ⊎ Offence
        (local_attestation toy alice (on_new_session toy false [] begun))
        (local_attestation toy alice begun))
local_attestation-Offence_example =
    local_attestation-Offence toy toy alice ((alice, 1) ∷ []) begun
      (on_new_session toy false [] begun) stay next_session later

-- The epoch 5 with a vote of each validator for it.
abbrev voted : Casper
voted = record running {
  current_epoch_attestations = vote 4 5 ∷ record (vote 4 5) { validator_id = bob } ∷ [];
}

abbrev weighed : JustifierRegistry Epoch
weighed = record {
  total_active_balance = ok 2;
  attesting_target_balance = λ e. ok (if e.0 == 5 then 2 else 0);
}

voted-Answers : Answers voted weighed
unfolding matching_target_balance total_balance validator_weight
voted-Answers = record { total = refl; previous = refl; current = refl }

reached : reaches (current_of voted) (total_of voted) ≡ true
unfolding matching_target_balance total_balance validator_weight
reached = refl

unreached : reaches (current_of running) (total_of running) ≡ false
unfolding matching_target_balance total_balance validator_weight
unreached = refl

on_new_session-process_example :
    process epoch_of (justifier_of voted) (4, 20) (5, 30) weighed
    ≡ ok (justifier_of (on_new_session toy false [] voted))
on_new_session-process_example =
    on_new_session-process toy false [] voted weighed true false false false voted-Answers refl
      (inr reached)

-- Nobody votes in epoch 5, and yet the epoch 4 is finalized.
on_new_session_unvoted_example : (on_new_session toy false [] running).finalized_epoch ≡ 4
on_new_session_unvoted_example =
    on_new_session_unvoted toy false [] running false false false refl unreached refl (omega arith)
