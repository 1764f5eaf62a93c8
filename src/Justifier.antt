-- ===== src/Justifier.antt =====
-- beacon/src/components/justification.rs: Casper FFG justification and finalization, over the traits
-- `Checkpoint` (a type `A` with its epoch) and `JustifierRegistry`. The bits of a `Justifier` are four.
-- Where a call of the registry fails, `process` returns its failure; its caller drops the justifier then.
pub mod Order
pub mod Due
pub mod Finality
use shasper.Prelude.{
  ℕ, suc, ◌+◌, ◌-◌, Bool, true, false, ◌&&◌, List, [], ◌∷◌, if◌then◌else◌, ◌==◌, leb, length, take,
  set, get_or, add64, mul64,
}
use shasper.Outcome.{Outcome, ok, ◌>>=◌}

pub record Justifier (A : Type 0) : Type 0 where
  pub justification_bits : List Bool
  pub current_justified_checkpoint : A
  pub previous_justified_checkpoint : A
  pub finalized_checkpoint : A

pub record JustifierRegistry (A : Type 0) : Type 0 where
  pub total_active_balance : Outcome ℕ
  pub attesting_target_balance : A → Outcome ℕ

-- `bits[from..to].iter().all(|v| *v)`, for `n` bits from `from` on.
unfoldable pub all_set : List Bool → ℕ → ℕ → Bool
all_set bits from ℕ.zero = true
all_set bits from (suc n) = get_or bits from false && all_set bits (from + 1) n

-- The shift of the bits by one epoch.
unfoldable pub shift_bits : List Bool → List Bool
shift_bits bits = false ∷ take (length bits - 1) bits

module _ {A : Type 0} (epoch : A → ℕ) where
  -- The step "Process justifications", from whether each target balance reaches two thirds.
  unfoldable pub justify : Justifier A → A → A → Bool → Bool → Justifier A
  unfolding shift_bits
  justify j previous_checkpoint current_checkpoint previous_reached current_reached =
      let bits_0 = shift_bits j.justification_bits in
      let bits_1 = if previous_reached then set bits_0 1 true else bits_0 in
      let bits_2 = if current_reached then set bits_1 0 true else bits_1 in
      let justified_1 =
        if previous_reached then previous_checkpoint else j.current_justified_checkpoint in
      record j {
        justification_bits = bits_2;
        previous_justified_checkpoint = j.current_justified_checkpoint;
        current_justified_checkpoint = if current_reached then current_checkpoint else justified_1;
      }

  -- The step "Process finalizations": of the four rules the last that applies decides.
  unfoldable pub finalize : List Bool → A → A → ℕ → A → A
  unfolding all_set
  finalize bits old_previous old_current current_epoch finalized =
      let finalized_1 =
        if all_set bits 1 3 && (add64 (epoch old_previous) 3 == current_epoch)
        then old_previous
        else finalized in
      let finalized_2 =
        if all_set bits 1 2 && (add64 (epoch old_previous) 2 == current_epoch)
        then old_previous
        else finalized_1 in
      let finalized_3 =
        if all_set bits 0 3 && (add64 (epoch old_current) 2 == current_epoch)
        then old_current
        else finalized_2 in
      if all_set bits 0 2 && (add64 (epoch old_current) 1 == current_epoch)
      then old_current
      else finalized_3

  -- `balance * 3 >= total * 2`.
  abbrev pub reaches : ℕ → ℕ → Bool
  reaches balance total = leb (mul64 total 2) (mul64 balance 3)

  unfoldable pub process : Justifier A → A → A → JustifierRegistry A → Outcome (Justifier A)
  unfolding justify finalize
  process j previous_checkpoint current_checkpoint registry = do
    previous_balance ← registry.attesting_target_balance previous_checkpoint
    total ← registry.total_active_balance
    current_balance ← registry.attesting_target_balance current_checkpoint
    total' ← registry.total_active_balance
    let justified =
        justify j previous_checkpoint current_checkpoint (reaches previous_balance total)
          (reaches current_balance total')
    ok (record justified {
      finalized_checkpoint =
          finalize justified.justification_bits j.previous_justified_checkpoint
            j.current_justified_checkpoint (epoch current_checkpoint) j.finalized_checkpoint;
    })
