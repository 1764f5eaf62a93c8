-- ===== src/Justifier/Order.antt =====
-- The epochs of the checkpoints stay in order, and finality never goes back.
use shasper.Prelude.{
  ℕ, ◌+◌, ◌≤◌, ◌<◌, ◌≡◌, Bool, List, true, arith, sym, subst, false, if◌then◌else◌, ◌&&◌, ◌==◌,
  add64,
}
use shasper.Outcome.{ok, >>=-eq-ok, ok-injective}
use shasper.Justifier.{Justifier, JustifierRegistry, all_set, justify, finalize, process, reaches}

if_keeps {ℓ} :
    {A : Type ℓ} (P : A → Type 0) (b : Bool) (x y : A) → P x → P y → P (if b then x else y)
if_keeps P true x y p q = p
if_keeps P false x y p q = q

module _ {A : Type 0} (epoch : A → ℕ) where
  -- What holds between two calls, for the epoch `now` of the next one.
  pub record IsOrdered (j : Justifier A) (now : ℕ) : Type 0 where
    pub finalized_before : epoch j.finalized_checkpoint ≤ epoch j.previous_justified_checkpoint
    pub previous_before :
        epoch j.previous_justified_checkpoint ≤ epoch j.current_justified_checkpoint
    pub current_before : epoch j.current_justified_checkpoint < now

  -- The justifier after both steps.
  unfoldable pub outcome : Justifier A → A → A → Bool → Bool → Justifier A
  unfolding justify finalize
  outcome j previous current p c =
      let justified = justify epoch j previous current p c in
      record justified {
        finalized_checkpoint =
            finalize epoch justified.justification_bits j.previous_justified_checkpoint
              j.current_justified_checkpoint (epoch current) j.finalized_checkpoint;
      }

  -- A call that succeeds has two balances and two totals, and takes both steps.
  pub process-outcome :
      (j j' : Justifier A) (previous current : A) (registry : JustifierRegistry A)
      → process epoch j previous current registry ≡ ok j'
      → (p : Bool) × (c : Bool) × (j' ≡ outcome j previous current p c)
  unfolding process outcome
  process-outcome j j' previous current registry e =
      let (b, eb, e1) = >>=-eq-ok (registry.attesting_target_balance previous) _ e in
      let (t, et, e2) = >>=-eq-ok registry.total_active_balance _ e1 in
      let (b', eb', e3) = >>=-eq-ok (registry.attesting_target_balance current) _ e2 in
      let (t', et', e4) = >>=-eq-ok registry.total_active_balance _ e3 in
      (reaches epoch b t, reaches epoch b' t', sym (ok-injective e4))

  -- What holds of the old finalized checkpoint and of both that were justified holds of the new one.
  finalize_choice :
      (P : A → Type 0) (bits : List Bool) (old_previous old_current : A) (now : ℕ) (finalized : A)
      → P old_previous
      → P old_current
      → P finalized
      → P (finalize epoch bits old_previous old_current now finalized)
  unfolding finalize
  finalize_choice P bits old_previous old_current now finalized p c f =
      if_keeps P (all_set bits 0 2 && (add64 (epoch old_current) 1 == now)) old_current _ c (
        if_keeps P (all_set bits 0 3 && (add64 (epoch old_current) 2 == now)) old_current _ c (
          if_keeps P (all_set bits 1 2 && (add64 (epoch old_previous) 2 == now)) old_previous _ p (
            if_keeps P (all_set bits 1 3 && (add64 (epoch old_previous) 3 == now)) old_previous
              finalized p f)))

  outcome-IsOrdered :
      (j : Justifier A) (previous current : A) (p c : Bool)
      → IsOrdered j (epoch current)
      → epoch previous + 1 ≡ epoch current
      → IsOrdered (outcome j previous current p c) (epoch current + 1)
        × (epoch j.finalized_checkpoint
            ≤ epoch (outcome j previous current p c).finalized_checkpoint)
  unfolding outcome justify
  outcome-IsOrdered j previous current p c h e =
      let j' = justify epoch j previous current p c in
      let choice = λ (P : A → Type 0).
        finalize_choice P j'.justification_bits j.previous_justified_checkpoint
          j.current_justified_checkpoint (epoch current) j.finalized_checkpoint in
      (
        record {
          finalized_before =
              choice (λ a. epoch a ≤ epoch j.current_justified_checkpoint) h.previous_before
                (omega arith) (omega arith);
          previous_before = ground arith;
          current_before = ground arith;
        },
        choice (λ a. epoch j.finalized_checkpoint ≤ epoch a) h.finalized_before (omega arith)
            (omega arith),
      )

  -- A call that succeeds keeps the epochs of the checkpoints in order (finalized, previous justified,
  -- current justified, now), ready for the next epoch, and the finalized epoch never falls.
  pub process-IsOrdered :
      (j j' : Justifier A) (previous current : A) (registry : JustifierRegistry A)
      → IsOrdered j (epoch current)
      → epoch previous + 1 ≡ epoch current
      → process epoch j previous current registry ≡ ok j'
      → IsOrdered j' (epoch current + 1)
        × (epoch j.finalized_checkpoint ≤ epoch j'.finalized_checkpoint)
  process-IsOrdered j j' previous current registry h e ran =
      let (p, c, same) = process-outcome j j' previous current registry ran in
      subst
        (λ k.
          IsOrdered k (epoch current + 1)
          × (epoch j.finalized_checkpoint ≤ epoch k.finalized_checkpoint))
        (sym same) (outcome-IsOrdered j previous current p c h e)
