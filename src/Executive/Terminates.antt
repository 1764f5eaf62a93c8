-- ===== src/Executive/Terminates.antt =====
-- Calls on `&mut self` that end: one rule for each way to build a call.
use shasper.Prelude.{
  ℕ, ◌≡◌, refl, ap, Bool, true, false, List, [], ◌∷◌, get_elem?, if◌then◌else◌, Option-cases, inl,
  inr,
}
use shasper.Types.{BeaconState, Validator}
use shasper.Outcome.{Outcome, ok, err, panic, diverge, Error}
use shasper.Outcome.Ends.{Ends, ok-Ends, err-Ends, panic-Ends, if-Ends}
use shasper.Executive.Monad.{
  M, pure, reads, gets, continue, ◌>>=◌, require, modify, when, for_each, modify_validator,
  modify_balance, commit,
}

-- From every state `m` gives a value, an error or a panic.
pub record Terminates {A : Type 0} (m : M A) : Type 0 where
  pub terminates : (s : BeaconState) → Ends (m s).0

continue-Ends :
    {A B : Type 0} (r : Outcome A) (s : BeaconState) (f : A → M B)
    → Ends r
    → ((a : A) → Terminates (f a))
    → Ends (continue (r, s) f).0
continue-Ends (ok a) s f h k = (k a).terminates s
continue-Ends (err e) s f h k = err-Ends e
continue-Ends panic s f h k = panic-Ends
continue-Ends diverge s f h k = absurd (h.ends refl)

pub bind-Terminates :
    {A B : Type 0} (m : M A) (f : A → M B)
    → Terminates m
    → ((a : A) → Terminates (f a))
    → Terminates (m >>= f)
unfolding ◌>>=◌
bind-Terminates m f h k = record {
  terminates = λ s. continue-Ends (m s).0 (m s).1 f (h.terminates s) k;
}

continue-Ends_at :
    {A B : Type 0} (r : Outcome A) (t : BeaconState) (f : A → M B)
    → Ends r
    → ((a : A) → r ≡ ok a → Ends (f a t).0)
    → Ends (continue (r, t) f).0
continue-Ends_at (ok a) t f h k = k a refl
continue-Ends_at (err e) t f h k = err-Ends e
continue-Ends_at panic t f h k = panic-Ends
continue-Ends_at diverge t f h k = absurd (h.ends refl)

-- The rule for one state: what follows ends from the state that the first call gives.
pub bind-Ends_at :
    {A B : Type 0} (m : M A) (f : A → M B) (s : BeaconState)
    → Ends (m s).0
    → ((a : A) (t : BeaconState) → m s ≡ (ok a, t) → Ends (f a t).0)
    → Ends ((m >>= f) s).0
unfolding ◌>>=◌
bind-Ends_at m f s h k =
    continue-Ends_at (m s).0 (m s).1 f h (λ a e. k a (m s).1 (ap (λ r. (r, (m s).1)) e))

pub pure-Terminates : {A : Type 0} (a : A) → Terminates (pure a)
unfolding pure
pure-Terminates a = record { terminates = λ s. ok-Ends a }

pub reads-Terminates :
    {A : Type 0} (f : BeaconState → Outcome A)
    → ((s : BeaconState) → Ends (f s))
    → Terminates (reads f)
unfolding reads
reads-Terminates f k = record { terminates = k }

pub gets-Terminates : {A : Type 0} (f : BeaconState → A) → Terminates (gets f)
unfolding gets
gets-Terminates f = record { terminates = λ s. ok-Ends (f s) }

pub require-Terminates : (b : Bool) (e : Error) → Terminates (require b e)
unfolding require
require-Terminates b e = record { terminates = λ s. if-Ends b _ _ (ok-Ends tt) (err-Ends e) }

pub modify-Terminates : (f : BeaconState → BeaconState) → Terminates (modify f)
unfolding modify
modify-Terminates f = record { terminates = λ s. ok-Ends tt }

pub when-Terminates : (b : Bool) (m : M (Unit {0})) → Terminates m → Terminates (when b m)
unfolding when
when-Terminates true m k = k
when-Terminates false m k = pure-Terminates tt

pub if-Terminates :
    {A : Type 0} (b : Bool) (m n : M A)
    → Terminates m
    → Terminates n
    → Terminates (if b then m else n)
if-Terminates true m n k l = k
if-Terminates false m n k l = l

pub for_each-Terminates :
    {A : Type 0} (xs : List A) (f : A → M (Unit {0}))
    → ((x : A) → Terminates (f x))
    → Terminates (for_each xs f)
unfolding for_each
for_each-Terminates [] f k = pure-Terminates tt
for_each-Terminates (x ∷ xs) f k =
    bind-Terminates (f x) (λ _. for_each xs f) (k x) (λ _. for_each-Terminates xs f k)

pub modify_validator-Terminates :
    (i : ℕ) (f : Validator → Validator) → Terminates (modify_validator i f)
unfolding modify_validator
modify_validator-Terminates i f = record {
  terminates = λ s. elim (Option-cases (get_elem? s.validators i)) [
    | inl e ↦ rw (e, modify_validator) panic-Ends
    | inr (v, e) ↦ rw (e, modify_validator) (ok-Ends tt)
  ];
}

pub modify_balance-Terminates : (i : ℕ) (f : ℕ → ℕ) → Terminates (modify_balance i f)
unfolding modify_balance
modify_balance-Terminates i f = record {
  terminates = λ s. elim (Option-cases (get_elem? s.balances i)) [
    | inl e ↦ rw (e, modify_balance) panic-Ends
    | inr (b, e) ↦ rw (e, modify_balance) (ok-Ends tt)
  ];
}

pub commit-Terminates :
    (f : BeaconState → Outcome BeaconState)
    → ((s : BeaconState) → Ends (f s))
    → Terminates (commit f)
unfolding commit
commit-Terminates f k = bind-Terminates _ _ (reads-Terminates f k) (λ s'. modify-Terminates _)

pub ruleset terminates_rules = (
  bind-Terminates, pure-Terminates, gets-Terminates, require-Terminates, modify-Terminates,
  when-Terminates, if-Terminates, for_each-Terminates, modify_validator-Terminates,
  modify_balance-Terminates,
)
