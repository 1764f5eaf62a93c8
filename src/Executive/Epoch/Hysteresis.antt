-- ===== src/Executive/Epoch/Hysteresis.antt =====
-- The effective balance follows the balance: the loop of
-- beacon/src/executive/transition/per_epoch/finalize.rs.
use shasper.Prelude.{
  ℕ, ◌+◌, ◌*◌, ◌/◌, ◌-◌, ◌%◌, ◌≤◌, ◌<◌, ◌≡◌, ◌⊎◌, inl, inr, arith, u64_mod, Bool-cases, ltb, ◌||◌,
  add64, mul64,
}
use shasper.Types.{Validator}
use shasper.Config.{Config}
use shasper.Executive.Epoch.Finalize.{update_effective_balance}

floor_lt : (b i : ℕ) → 0 < i → b < b - b % i + i
floor_lt b i h = grind arith

-- Afterwards the effective balance is at most the balance, and it is within one and a half increments
-- of it, or at the greatest that is allowed. (The increment is at least 2 and no sum wraps.)
pub update_effective_balance-near :
    (C : Config) (v : Validator) (balance : ℕ)
    → 2 ≤ C.effective_balance_increment
    → v.effective_balance + 2 * C.effective_balance_increment < u64_mod
    → ((update_effective_balance C v balance).effective_balance ≤ balance)
      × ((balance
            ≤ (update_effective_balance C v balance).effective_balance
              + 3 * (C.effective_balance_increment / 2))
          ⊎ ((update_effective_balance C v balance).effective_balance ≡ C.max_effective_balance))
unfolding update_effective_balance
update_effective_balance-near C v balance inc fits =
    let half = C.effective_balance_increment / 2 in
    let near = floor_lt balance C.effective_balance_increment (omega arith) in
    elim (Bool-cases
      (ltb balance v.effective_balance || ltb (add64 v.effective_balance (mul64 3 half)) balance)) [
        | inl moved ↦ rw moved (ground (arith, near))
        | inr kept ↦ rw kept (ground (arith, kept))
      ]
