-- ===== src/Executive/Keeps.antt =====
-- Invariants of calls on `&mut self`, one rule for each way to build a call.
use shasper.Prelude.{
  ℕ, ◌≡◌, refl, Bool, true, false, List, [], ◌∷◌, some, get_elem?, set, if◌then◌else◌, Option-cases,
  inl, inr,
}
use shasper.Types.{BeaconState, Validator}
use shasper.Outcome.{Outcome, ok, err, panic, diverge, Error}
use shasper.Executive.Monad.{
  M, pure, reads, gets, continue, ◌>>=◌, require, modify, when, for_each, modify_validator,
  modify_balance, commit,
}

-- `m` keeps `P`, also where it ends with an error or a panic.
pub record Keeps {A : Type 0} (P : BeaconState → Type 0) (m : M A) : Type 0 where
  pub keeps : (s : BeaconState) → P s → P (m s).1

module _ {P : BeaconState → Type 0} where
  continue-keeps :
      {A B : Type 0} (r : Outcome A) (s : BeaconState) (f : A → M B)
      → P s
      → ((a : A) → Keeps P (f a))
      → P (continue (r, s) f).1
  continue-keeps (ok a) s f h k = (k a).keeps s h
  continue-keeps (err e) s f h k = h
  continue-keeps panic s f h k = h
  continue-keeps diverge s f h k = h

  pub bind-Keeps :
      {A B : Type 0} (call : M A) (next : A → M B)
      → Keeps P call
      → ((value : A) → Keeps P (next value))
      → Keeps P (call >>= next)
  unfolding ◌>>=◌
  bind-Keeps call next first later = record {
    keeps = λ s h. continue-keeps (call s).0 (call s).1 next (first.keeps s h) later;
  }

  pub pure-Keeps : {A : Type 0} (a : A) → Keeps P (pure a)
  unfolding pure
  pure-Keeps a = record { keeps = λ s h. h }

  pub reads-Keeps : {A : Type 0} (f : BeaconState → Outcome A) → Keeps P (reads f)
  unfolding reads
  reads-Keeps f = record { keeps = λ s h. h }

  pub gets-Keeps : {A : Type 0} (f : BeaconState → A) → Keeps P (gets f)
  unfolding gets
  gets-Keeps f = record { keeps = λ s h. h }

  pub require-Keeps : (b : Bool) (e : Error) → Keeps P (require b e)
  unfolding require
  require-Keeps b e = record { keeps = λ s h. h }

  pub modify-Keeps :
      (f : BeaconState → BeaconState) → ((s : BeaconState) → P s → P (f s)) → Keeps P (modify f)
  unfolding modify
  modify-Keeps f k = record { keeps = k }

  pub when-Keeps : (b : Bool) (m : M (Unit {0})) → Keeps P m → Keeps P (when b m)
  unfolding when
  when-Keeps true m k = k
  when-Keeps false m k = pure-Keeps tt

  pub if-Keeps :
      {A : Type 0} (b : Bool) (m n : M A) → Keeps P m → Keeps P n → Keeps P (if b then m else n)
  if-Keeps true m n k l = k
  if-Keeps false m n k l = l

  pub for_each-Keeps :
      {A : Type 0} (xs : List A) (f : A → M (Unit {0}))
      → ((x : A) → Keeps P (f x))
      → Keeps P (for_each xs f)
  unfolding for_each
  for_each-Keeps [] f k = pure-Keeps tt
  for_each-Keeps (x ∷ xs) f k =
      bind-Keeps (f x) (λ _. for_each xs f) (k x) (λ _. for_each-Keeps xs f k)

  pub modify_validator-Keeps :
      (i : ℕ) (f : Validator → Validator)
      → ((s : BeaconState) (v : Validator)
          → P s
          → get_elem? s.validators i ≡ some v
          → P (record s { validators = set s.validators i (f v) }))
      → Keeps P (modify_validator i f)
  unfolding modify_validator
  modify_validator-Keeps i f k = record {
    keeps = λ s h. elim (Option-cases (get_elem? s.validators i)) [
      | inl e ↦ rw (e, modify_validator) h
      | inr (v, e) ↦ rw (e, modify_validator) (k s v h e)
    ];
  }

  pub modify_balance-Keeps :
      (i : ℕ) (f : ℕ → ℕ)
      → ((s : BeaconState) (b : ℕ)
          → P s
          → get_elem? s.balances i ≡ some b
          → P (record s { balances = set s.balances i (f b) }))
      → Keeps P (modify_balance i f)
  unfolding modify_balance
  modify_balance-Keeps i f k = record {
    keeps = λ s h. elim (Option-cases (get_elem? s.balances i)) [
      | inl e ↦ rw (e, modify_balance) h
      | inr (b, e) ↦ rw (e, modify_balance) (k s b h e)
    ];
  }

  commit_cases :
      (r : Outcome BeaconState) (s : BeaconState)
      → P s
      → ((s' : BeaconState) → r ≡ ok s' → P s')
      → P (continue {0, 0} (r, s) (λ s' _. (ok tt, s'))).1
  commit_cases (ok s') s h k = k s' refl
  commit_cases (err e) s h k = h
  commit_cases panic s h k = h
  commit_cases diverge s h k = h

  pub commit-Keeps :
      (f : BeaconState → Outcome BeaconState)
      → ((s s' : BeaconState) → P s → f s ≡ ok s' → P s')
      → Keeps P (commit f)
  unfolding commit ◌>>=◌
  commit-Keeps f k = record { keeps = λ s h. commit_cases (f s) s h (λ s' e. k s s' h e) }

pub ruleset keeps_rules = (
  bind-Keeps, pure-Keeps, reads-Keeps, gets-Keeps, require-Keeps, when-Keeps, if-Keeps,
  for_each-Keeps,
)
