-- ===== src/Outcome/Ends.antt =====
-- Calls that end: one rule for each way to build a call.
use shasper.Prelude.{
  ℕ, ◌≢◌, refl, Bool, true, false, List, [], ◌∷◌, Option, none, some, get_elem?, if◌then◌else◌,
  ◌==◌, ltb, length,
}
use shasper.Outcome.{
  Outcome, ok, err, panic, diverge, Error, ◌>>=◌, require, index, update, checked_div, traverse,
  try_fold,
}

-- `r` is a value, an error or a panic.
pub record Ends {ℓ} {A : Type ℓ} (r : Outcome A) : Type ℓ where
  pub ends : r ≢ diverge

module _ {ℓ} {A : Type ℓ} where
  pub ok-Ends : (a : A) → Ends (ok a)
  ok-Ends a = record { ends = λ e. cc }

  pub err-Ends : (x : Error) → Ends {A = A} (err x)
  err-Ends x = record { ends = λ e. cc }

  pub panic-Ends : Ends {A = A} panic
  panic-Ends = record { ends = λ e. cc }

  pub bind-Ends {κ} :
      {B : Type κ} (m : Outcome A) (f : A → Outcome B)
      → Ends m
      → ((a : A) → Ends (f a))
      → Ends (m >>= f)
  bind-Ends (ok a) f h k = k a
  bind-Ends (err x) f h k = record { ends = λ e. cc }
  bind-Ends panic f h k = record { ends = λ e. cc }
  bind-Ends diverge f h k = absurd (h.ends refl)

  pub if-Ends : (b : Bool) (r r' : Outcome A) → Ends r → Ends r' → Ends (if b then r else r')
  if-Ends true r r' h h' = h
  if-Ends false r r' h h' = h'

  option-Ends : (o : Option A) → Ends (elim o as (λ _. Outcome A) [ none ↦ panic | some a ↦ ok a ])
  option-Ends none = panic-Ends
  option-Ends (some a) = ok-Ends a

  pub index-Ends : (xs : List A) (i : ℕ) → Ends (index xs i)
  index-Ends xs i = option-Ends (get_elem? xs i)

pub update-Ends {ℓ} : {A : Type ℓ} (xs : List A) (i : ℕ) (v : A) → Ends (update xs i v)
update-Ends xs i v = if-Ends (ltb i (length xs)) _ _ (ok-Ends _) panic-Ends

pub require-Ends : (b : Bool) (x : Error) → Ends (require b x)
require-Ends true x = ok-Ends tt
require-Ends false x = err-Ends x

pub checked_div-Ends : (a b : ℕ) → Ends (checked_div a b)
checked_div-Ends a b = if-Ends (b == 0) _ _ panic-Ends (ok-Ends _)

pub traverse-Ends {ℓ κ} :
    {A : Type ℓ} {B : Type κ} (f : A → Outcome B) (xs : List A)
    → ((a : A) → Ends (f a))
    → Ends (traverse f xs)
traverse-Ends f [] k = ok-Ends _
traverse-Ends f (x ∷ xs) k =
    bind-Ends (f x) _ (k x)
      (λ y. bind-Ends (traverse f xs) _ (traverse-Ends f xs k) (λ ys. ok-Ends _))

pub try_fold-Ends {ℓ κ} :
    {S : Type ℓ} {A : Type κ} (f : S → A → Outcome S) (s : S) (xs : List A)
    → ((s : S) (a : A) → Ends (f s a))
    → Ends (try_fold f s xs)
try_fold-Ends f s [] k = ok-Ends _
try_fold-Ends f s (x ∷ xs) k = bind-Ends (f s x) _ (k s x) (λ s'. try_fold-Ends f s' xs k)

pub ruleset ends_rules = (
  ok-Ends, err-Ends, panic-Ends, bind-Ends, if-Ends, index-Ends, update-Ends, require-Ends,
  checked_div-Ends, traverse-Ends, try_fold-Ends,
)
