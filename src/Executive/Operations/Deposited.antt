-- ===== src/Executive/Operations/Deposited.antt =====
-- What a deposit does: `process_deposit` of
-- beacon/src/executive/transition/per_block/operations/deposit.rs.
use shasper.Prelude.{
  ℕ, ◌+◌, ◌*◌, ◌/◌, ◌-◌, ◌%◌, ◌≡◌, ◌⊎◌, ◌↔◌, refl, ap, ◌∙◌, subst, true, false, Bool-cases, Bool,
  inl, inr, set, get_elem?, some, none, add64, Option, [], ◌∷◌, ◌++◌, min, arith, if◌then◌else◌,
}
use shasper.Types.{BeaconState, Deposit, DepositData, signing_deposit_data}
use shasper.Outcome.{ok}
use shasper.Config.{Config, BlsConfig, domain_deposit}
use shasper.Utils.{is_valid_merkle_branch, deposit_contract_tree_depth, far_future_epoch}
use shasper.Executive.Accessors.{domain}
use shasper.Executive.Mutators.{increase_balance}
use shasper.Executive.Operations.Registry.{
  find_pubkey, new_validator, add_validator, deposit_new, process_deposit,
}
use shasper.Executive.Monad.{M, ◌>>=◌, gets, require, modify, modify_balance}
use shasper.Executive.Operations.Keyed.{
  Unknown, IsFirst, Found, nowhere, found, find_pubkey-Found, Found-none, Found-some,
}
use shasper.Executive.Runs.{runs_check, runs_get, runs_modify, runs_step, runs_modify_balance}

new_stake : (amount increment : ℕ) → amount - amount % increment ≡ increment * (amount / increment)
new_stake amount increment = grind arith

-- The signature of a deposit is a proof of possession of its key.
abbrev pub is_possessed : Config → BlsConfig → BeaconState → DepositData → Bool
is_possessed C B s d =
    B.verify d.pubkey (C.hasher.signing_deposit_root (signing_deposit_data d)) d.signature
      (domain C s domain_deposit none)

-- The state with the deposit counted.
abbrev pub counted : BeaconState → BeaconState
counted s = record s { eth1_deposit_index = add64 s.eth1_deposit_index 1 }

-- The state with one more validator, whose effective balance is the amount in whole increments, up to the
-- greatest.
abbrev pub with_validator : Config → DepositData → BeaconState → BeaconState
with_validator C d s = record s {
  validators =
      s.validators
      ++ record {
        pubkey = d.pubkey;
        withdrawal_credentials = d.withdrawal_credentials;
        effective_balance =
            min (C.effective_balance_increment * (d.amount / C.effective_balance_increment))
              C.max_effective_balance;
        slashed = false;
        activation_eligibility_epoch = far_future_epoch;
        activation_epoch = far_future_epoch;
        exit_epoch = far_future_epoch;
        withdrawable_epoch = far_future_epoch;
      }
        ∷ [];
  balances = s.balances ++ d.amount ∷ [];
}

add_validator_lem :
    (C : Config) (d : DepositData) (s : BeaconState) → add_validator C d s ≡ with_validator C d s
unfolding add_validator new_validator
add_validator_lem C d s = rw (new_stake d.amount C.effective_balance_increment) refl

module _ (C : Config) (B : BlsConfig) where
  -- The three things that a counted deposit can do.
  abbrev pub Deposited : DepositData → BeaconState → BeaconState → Type 0
  Deposited d s s' =
      (Unknown d.pubkey s.validators
        × (is_possessed C B (counted s) d ≡ true)
        × (s' ≡ with_validator C d (counted s)))
      ⊎ ((Unknown d.pubkey s.validators
            × (is_possessed C B (counted s) d ≡ false)
            × (s' ≡ counted s))
          ⊎ ((i : ℕ) × (b : ℕ) × IsFirst d.pubkey s.validators i
              × (get_elem? s.balances i ≡ some b)
              × (s' ≡ record (counted s) { balances = set s.balances i (add64 b d.amount) })))

  -- What follows the search of the key, by what it found.
  abbrev after : DepositData → Option ℕ → M (Unit {0})
  after d known = elim known as (λ _. M (Unit {0})) [
    | none ↦ deposit_new C B d
    | some i ↦ increase_balance i d.amount
  ]

  after-Deposited :
      (d : DepositData) (s s' : BeaconState) (known : Option ℕ)
      → Found d.pubkey 0 s.validators known
      → after d known (counted s) ≡ (ok tt, s')
      → Deposited d s s'
  unfolding deposit_new increase_balance
  after-Deposited d s s' none (nowhere h) e =
      let same = runs_modify _ (runs_get _ _ e) in
      let added : Bool → BeaconState =
        λ b. if b then add_validator C d (counted s) else counted s in
      elim (Bool-cases (is_possessed C B (counted s) d)) [
        | inl owned ↦ inl (h, owned, same ∙ ap added owned ∙ add_validator_lem C d (counted s))
        | inr other ↦ inr (inl (h, other, same ∙ ap added other))
      ]
  after-Deposited d s s' _ (found i h) e =
      let at : increase_balance i d.amount (counted s) ≡ (ok tt, s') =
        subst (λ (n : ℕ). after d (some n) (counted s) ≡ (ok tt, s')) (omega arith) e in
      let (b, old, same) = runs_modify_balance i _ (counted s) s' at in
      inr (inr (i, b, h, old, same))

  Deposited-after :
      (d : DepositData) (s s' : BeaconState)
      → Deposited d s s'
      → after d (find_pubkey d.pubkey 0 s.validators) (counted s) ≡ (ok tt, s')
  unfolding deposit_new increase_balance modify_balance ◌>>=◌ gets modify
  Deposited-after d s s' h =
      let searched = find_pubkey-Found d.pubkey 0 s.validators in
      elim h [
        | inl (unknown, owned, e) ↦
            rw (Found-none d.pubkey s.validators _ searched unknown, owned, e)
              (ap (λ (x : BeaconState). (ok tt, x)) (add_validator_lem C d (counted s)))
        | inr (inl (unknown, other, e)) ↦
            rw (Found-none d.pubkey s.validators _ searched unknown, other, e) refl
        | inr (inr (i, b, first, old, e)) ↦
            rw (Found-some d.pubkey s.validators _ i searched first, e, modify_balance, old) refl
      ]

  -- The Merkle proof of a deposit.
  abbrev pub IsProved : Deposit → BeaconState → Type 0
  IsProved t s =
      is_valid_merkle_branch C (C.hasher.deposit_data_root t.deposit_data) t.proof
        (deposit_contract_tree_depth + 1) s.eth1_deposit_index s.eth1_data.deposit_root
      ≡ true

  deposited :
      (t : Deposit) (s s' : BeaconState)
      → process_deposit C B t s ≡ (ok tt, s')
      → IsProved t s × Deposited t.deposit_data s s'
  unfolding process_deposit
  deposited t s s' e =
      let (proved, r1) = runs_check _ _ _ (runs_get _ _ e) in
      let r2 = runs_get _ _ (runs_step _ _ r1) in
      (
        proved,
        after-Deposited t.deposit_data s s' _
            (find_pubkey-Found t.deposit_data.pubkey 0 s.validators) r2,
      )

  deposits :
      (t : Deposit) (s s' : BeaconState)
      → IsProved t s
      → Deposited t.deposit_data s s'
      → process_deposit C B t s ≡ (ok tt, s')
  unfolding process_deposit ◌>>=◌ gets require modify
  deposits t s s' proved h = rw proved (Deposited-after t.deposit_data s s' h)

  -- A deposit is processed exactly where its Merkle proof is right. The count of deposits goes up by one; a
  -- key that no validator has is added with the amount as its balance, where the deposit proves its
  -- possession, and left alone where not; for a key that a validator has, the amount is added (with 64 bits)
  -- to the balance of the first that has it, which has to be there. Nothing else changes.
  pub process_deposit-Deposited :
      (t : Deposit) (s s' : BeaconState)
      → (process_deposit C B t s ≡ (ok tt, s')) ↔ (IsProved t s × Deposited t.deposit_data s s')
  process_deposit-Deposited t s s' = (deposited t s s', λ h. deposits t s s' h.0 h.1)
