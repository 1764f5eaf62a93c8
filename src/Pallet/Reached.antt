-- ===== src/Pallet/Reached.antt =====
-- What holds of the Casper pallet from its genesis on, and of the attestations that one validator signs.
use shasper.Prelude.{ℕ, ◌≤◌, ◌<◌, ◌≡◌, List, Bytes, arith, inl, inr, ◌⊎◌}
use shasper.Pallet.{genesis, Casper, Host}
use shasper.Pallet.Offchain.{local_attestation}
use shasper.Pallet.Slashed.{Offence, double_vote, surround_vote}
use shasper.Pallet.Ordered.{
  IsOrdered, Step, attesting, slashing, session, disabling, Steps, stay, more, Grows, epochs,
  attest-epochs, slash-epochs, on_disabled-epochs, on_new_session-IsOrdered,
}

same_epochs : (s s' : Casper) → epochs s' ≡ epochs s → IsOrdered s → IsOrdered s' × Grows s s'
same_epochs s s' e o = (
  record {
    finalized_before = ground (arith, o.finalized_before);
    justified_before = ground (arith, o.justified_before);
    previous_before = ground (arith, o.previous_before);
    current_before = ground (arith, o.current_before);
  },
  record {
    finalized_grows = ground arith;
    justified_grows = ground arith;
    current_grows = ground arith;
  },
)

Step-IsOrdered : (s s' : Casper) → Step s s' → IsOrdered s → IsOrdered s' × Grows s s'
Step-IsOrdered s s' (attesting host from_none a signature ran) o =
    same_epochs s s' (attest-epochs host from_none a signature s s' ran) o
Step-IsOrdered s s' (slashing host from_none a b sig_1 sig_2 ran) o =
    same_epochs s s' (slash-epochs host from_none a b sig_1 sig_2 s s' ran) o
Step-IsOrdered s s' (session host changed new_validators small) o =
    on_new_session-IsOrdered host changed new_validators s small o
Step-IsOrdered s s' (disabling i ran) o = same_epochs s s' (on_disabled-epochs i s s' ran) o

Steps-Grows : (s s' : Casper) → Steps s s' → IsOrdered s → IsOrdered s' × Grows s s'
Steps-Grows s s' stay o = (
  o,
  record {
    finalized_grows = omega arith;
    justified_grows = omega arith;
    current_grows = omega arith;
  },
)
Steps-Grows s s'' (more {s'} run last) o =
    let (o', g) = Steps-Grows s s' run o in
    let (o'', g') = Step-IsOrdered s' s'' last o' in
    (
      o'',
      record {
        finalized_grows = omega (arith, g.finalized_grows, g'.finalized_grows);
        justified_grows = omega (arith, g.justified_grows, g'.justified_grows);
        current_grows = omega (arith, g.current_grows, g'.current_grows);
      },
    )

-- From the genesis on, while the epoch does not wrap, the epochs of the storage are in order: finalized, justified, previous, current.
pub Steps-IsOrdered :
    (validators : List (Bytes × ℕ)) (s : Casper) → Steps (genesis validators) s → IsOrdered s
unfolding genesis
Steps-IsOrdered validators s run = (Steps-Grows (genesis validators) s run (omega arith)).0

-- In order too, the finalized epoch never falls.
pub Steps-finalized :
    (s s' : Casper) → Steps s s' → IsOrdered s → s.finalized_epoch ≤ s'.finalized_epoch
Steps-finalized s s' run o = (Steps-Grows s s' run o).1.finalized_grows

-- What a validator's off-chain worker signs in a later epoch is no offence with what it signed before,
-- in a run from the genesis in which the epoch does not wrap.
pub local_attestation-Offence :
    (host host' : Host) (key : Bytes) (validators : List (Bytes × ℕ)) (s s' : Casper)
    → Steps (genesis validators) s
    → Steps s s'
    → s.current_epoch < s'.current_epoch
    → ¬ (
        Offence (local_attestation host key s) (local_attestation host' key s')
        ⊎ Offence (local_attestation host' key s') (local_attestation host key s))
unfolding local_attestation
local_attestation-Offence host host' key validators s s' before run later =
    let (_, g) = Steps-Grows s s' run (Steps-IsOrdered validators s before) in
    λ offence. elim offence [
      | inl (double_vote e) ↦ absurd (omega arith)
      | inl (surround_vote p q) ↦ absurd (omega arith)
      | inr (double_vote e) ↦ absurd (omega arith)
      | inr (surround_vote p q) ↦ absurd (omega (arith, g.justified_grows))
    ]
