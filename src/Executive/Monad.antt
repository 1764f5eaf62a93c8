-- ===== src/Executive/Monad.antt =====
-- A call on `&mut self`: it reads and writes the state, and its outcome comes with the state, which
-- keeps what was written before an error or a panic.
use shasper.Prelude.{ℕ, Bool, true, false, List, [], ◌∷◌, none, some, get_elem?, set, if◌then◌else◌}
use shasper.Types.{BeaconState, Validator}
use shasper.Outcome.{Outcome, ok, err, panic, diverge, Error}

abbrev pub M : Type 0 → Type 0
M A = BeaconState → Outcome A × BeaconState

module _ {A : Type 0} where
  unfoldable pub pure : A → M A
  pure a s = (ok a, s)

  unfoldable pub fail : Error → M A
  fail e s = (err e, s)

  -- A call of a function of the state alone.
  unfoldable pub reads : (BeaconState → Outcome A) → M A
  reads f s = (f s, s)

  unfoldable pub gets : (BeaconState → A) → M A
  gets f s = (ok (f s), s)

abbrev pub continue {ℓ κ} :
    {A : Type ℓ} {B : Type κ}
    → Outcome A × BeaconState
    → (A → BeaconState → Outcome B × BeaconState)
    → Outcome B × BeaconState
continue (ok a, s) f = f a s
continue (err e, s) f = (err e, s)
continue (panic, s) f = (panic, s)
continue (diverge, s) f = (diverge, s)

-- `if !b { return Err(e) }`.
unfoldable pub require : Bool → Error → M (Unit {0})
require b e s = (if b then ok tt else err e, s)

unfoldable pub modify : (BeaconState → BeaconState) → M (Unit {0})
modify f s = (ok tt, f s)

infixl 5 ◌>>=◌ ◌>>◌
-- Opening this opens what the blocks are made of.
unfoldable pub ◌>>=◌ : {B A : Type 0} → M B → (B → M A) → M A
unfolding pure fail reads gets require modify
◌>>=◌ call next s = continue (call s) next

abbrev pub ◌>>◌ : {A : Type 0} → M (Unit {0}) → M A → M A
call >> rest = call >>= λ done. rest

-- `if b { m }`.
unfoldable pub when : Bool → M (Unit {0}) → M (Unit {0})
when true m = m
when false m = pure tt

-- `for x in xs { f(x)?; }`.
unfoldable pub for_each {ℓ} : {A : Type ℓ} → List A → (A → M (Unit {0})) → M (Unit {0})
for_each [] f = pure tt
for_each (x ∷ xs) f = f x >> for_each xs f

-- `self.state.validators[i]` changed in place.
unfoldable pub modify_validator : ℕ → (Validator → Validator) → M (Unit {0})
modify_validator i f s = elim (get_elem? s.validators i) [
  | none ↦ (panic, s)
  | some v ↦ (ok tt, record s { validators = set s.validators i (f v) })
]

-- `self.state.balances[i]` changed in place.
unfoldable pub modify_balance : ℕ → (ℕ → ℕ) → M (Unit {0})
modify_balance i f s = elim (get_elem? s.balances i) [
  | none ↦ (panic, s)
  | some b ↦ (ok tt, record s { balances = set s.balances i (f b) })
]

-- A step that computes the new state first, and leaves the old one where that fails.
unfoldable pub commit : (BeaconState → Outcome BeaconState) → M (Unit {0})
commit f = reads f >>= λ s'. modify (λ _. s')
