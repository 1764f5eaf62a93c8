-- ===== src/Executive/Mutators/Slash.antt =====
-- A validator is slashed once: `slash_validator` of beacon/src/executive/helpers/mutators.rs.
use shasper.Prelude.{
  ℕ, ◌≡◌, refl, sym, ap, subst, ◌∙◌, true, Option, List, get_elem?, some, get_elem?-set_self,
  lt-of_get_elem?,
}
use shasper.Types.{BeaconState, Validator}
use shasper.Outcome.{ok}
use shasper.Config.{Config}
use shasper.Executive.Monad.{modify, modify_validator}
use shasper.Executive.Keeps.{Keeps, keeps_rules, modify-Keeps, modify_balance-Keeps}
use shasper.Executive.Runs.{runs_bind, runs_modify_validator}
use shasper.Executive.Mutators.{
  increase_balance, decrease_balance, add_slashing, slash_rewards, slash_validator,
}

module _ (vs : List Validator) where
  Registers : BeaconState → Type 0
  Registers s = s.validators ≡ vs

  slashing-Keeps : (C : Config) (b : ℕ) → Keeps Registers (modify (add_slashing C b))
  unfolding add_slashing Registers
  slashing-Keeps C b = modify-Keeps _ (λ s h. h)

  increase-Keeps : (i delta : ℕ) → Keeps Registers (increase_balance i delta)
  unfolding increase_balance Registers
  increase-Keeps i delta = modify_balance-Keeps i _ (λ s b h e. h)

  decrease-Keeps : (i delta : ℕ) → Keeps Registers (decrease_balance i delta)
  unfolding decrease_balance Registers
  decrease-Keeps i delta = modify_balance-Keeps i _ (λ s b h e. h)

  rewards-Keeps : (C : Config) (i : ℕ) (w : Option ℕ) → Keeps Registers (slash_rewards C i w)
  unfolding slash_rewards
  rewards-Keeps C i w =
      search (keeps_rules, slashing-Keeps C, increase-Keeps, decrease-Keeps) depth 30

modify_validator_at :
    (i : ℕ) (f : Validator → Validator) (s s' : BeaconState) {u : Unit {0}}
    → modify_validator i f s ≡ (ok u, s')
    → (v : Validator) × (get_elem? s.validators i ≡ some v)
      × (get_elem? s'.validators i ≡ some (f v))
modify_validator_at i f s s' e =
    let (v, at, same) = runs_modify_validator i f s s' e in
    let there = get_elem?-set_self s.validators i (f v) (lt-of_get_elem? s.validators i at) in
    (v, at, ap (λ x. get_elem? x.validators i) same ∙ there)

some-slashed : {v u : Validator} → some v ≡ some u → v.slashed ≡ u.slashed
some-slashed {v} {u} e = let same : v ≡ u = cc in ap (λ x. x.slashed) same

-- If the slashing of a validator succeeds, the validator is in the registry, and it is slashed.
pub slash_validator-slashed :
    (C : Config) (i : ℕ) (w : Option ℕ) (s s' : BeaconState)
    → slash_validator C i w s ≡ (ok tt, s')
    → (v : Validator) × (get_elem? s'.validators i ≡ some v) × (v.slashed ≡ true)
unfolding slash_validator Registers
slash_validator-slashed C i w s s' e =
    let (epoch, s1, e1, r1) = runs_bind _ _ e in
    let (_, s2, e2, r2) = runs_bind _ _ r1 in
    let (_, s3, e3, r3) = runs_bind _ _ r2 in
    let (_, s4, e4, r4) = runs_bind _ _ r3 in
    let (v, at, at3) = modify_validator_at i (λ v. record v { slashed = true }) s2 s3 e3 in
    let (u, at', at4) = modify_validator_at i _ s3 s4 e4 in
    let kept = (rewards-Keeps s4.validators C i w).keeps s4 refl in
    let same : s'.validators ≡ s4.validators =
      subst (λ p. p.1.validators ≡ s4.validators) r4 kept in
    (_, ap (λ vs. get_elem? vs i) same ∙ at4, sym (some-slashed (sym at3 ∙ at')))
