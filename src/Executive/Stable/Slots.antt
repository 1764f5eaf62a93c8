-- ===== src/Executive/Stable/Slots.antt =====
-- The loop over the slots keeps a stable property that justification and the two writes of the loop
-- keep.
use shasper.Prelude.{ℕ, zero, suc, Bool, true, false, add64, ltb, if◌then◌else◌}
use shasper.Types.{BeaconState, Block}
use shasper.Outcome.{ok}
use shasper.Config.{Config, BlsConfig}
use shasper.Executive.Epoch.Justification.{process_justification_and_finalization}
use shasper.Executive.Header.{set_latest_header}
use shasper.Executive.Transition.{
  process_slot, advance_slot, slots_loop, process_slots, state_transition,
}
use shasper.Executive.Monad.{M, modify, ◌>>◌}
use shasper.Executive.Keeps.{Keeps, keeps_rules, modify-Keeps, bind-Keeps, gets-Keeps, when-Keeps}
use shasper.Executive.Stable.{IsStable}
use shasper.Executive.Stable.Epochs.{stable_epoch}
use shasper.Executive.Stable.Blocks.{stable_block}

module _ (C : Config) {P : BeaconState → Type 0} (st : IsStable C P)
    (justified : Keeps P (process_justification_and_finalization C))
    (roots : (s : BeaconState) → P s → P (process_slot C s))
    (next : (s : BeaconState) (n : ℕ) → P s → P (record s { slot = n })) where
  stable_roots : Keeps P (modify (process_slot C))
  stable_roots = modify-Keeps _ roots

  stable_next : Keeps P (modify λ s. record s { slot = add64 s.slot 1 })
  stable_next = modify-Keeps _ (λ s. next s _)

  pub stable_advance : Keeps P (advance_slot C)
  unfolding advance_slot
  stable_advance = bind-Keeps _ _ stable_roots λ _.
      bind-Keeps _ _ (gets-Keeps _)
        λ slot. bind-Keeps _ _ (when-Keeps _ _ (stable_epoch C st justified)) (λ _. stable_next)

  loop_step :
      (b : Bool) (m : M (Unit {0})) (s : BeaconState)
      → P s
      → Keeps P m
      → P (if b then m s else (ok tt, s)).1
  loop_step true m s h k = k.keeps s h
  loop_step false m s h k = h

  stable_loop : (fuel target : ℕ) → Keeps P (slots_loop C fuel target)
  unfolding slots_loop
  stable_loop zero target = record { keeps = λ s h. h }
  stable_loop (suc fuel) target = record {
    keeps = λ s h.
        loop_step (ltb s.slot target) (advance_slot C >> slots_loop C fuel target) s h
          (bind-Keeps _ _ stable_advance (λ _. stable_loop fuel target));
  }

  pub stable_slots : (slot : ℕ) → Keeps P (process_slots C slot)
  unfolding process_slots
  stable_slots slot = search (keeps_rules, stable_loop) depth 20

  pub stable_transition :
      (header : (b : Block) (s : BeaconState) → P s → P (set_latest_header C b s)) (B : BlsConfig)
      (block : Block)
      → Keeps P (state_transition C B block)
  unfolding state_transition
  stable_transition header B block =
      search (keeps_rules, stable_slots, stable_block C st B header) depth 20
