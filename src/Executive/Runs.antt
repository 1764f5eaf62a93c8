-- ===== src/Executive/Runs.antt =====
-- Inversion of the calls on `&mut self` that succeed, what each step of a call gave, and steps forward.
use shasper.Prelude.{
  ℕ, ◌≡◌, ◌∙◌, refl, sym, ap, Bool, true, false, List, Option, none, some, get_elem?, set,
}
use shasper.Types.{BeaconState, Validator}
use shasper.Outcome.{Outcome, index, ok, err, panic, diverge, Error, ok-injective}
use shasper.Executive.Monad.{
  M, reads, gets, continue, ◌>>=◌, ◌>>◌, require, modify, modify_validator, modify_balance,
}

continue_runs :
    {A B : Type 0} (r : Outcome A) (t : BeaconState) (f : A → M B) (s' : BeaconState) (b : B)
    → continue (r, t) f ≡ (ok b, s')
    → (a : A) × (r ≡ ok a) × (f a t ≡ (ok b, s'))
continue_runs (ok a) t f s' b e = (a, refl, e)
continue_runs (err x) t f s' b e = absurd (cc (ap (λ p. p.0) e))
continue_runs panic t f s' b e = absurd (cc (ap (λ p. p.0) e))
continue_runs diverge t f s' b e = absurd (cc (ap (λ p. p.0) e))

pub runs_bind :
    {A B : Type 0} (m : M A) (f : A → M B) {s s' : BeaconState} {b : B}
    → (m >>= f) s ≡ (ok b, s')
    → (a : A) × (t : BeaconState) × (m s ≡ (ok a, t)) × (f a t ≡ (ok b, s'))
unfolding ◌>>=◌
runs_bind m f {s} {s'} {b} e =
    let (a, er, e') = continue_runs (m s).0 (m s).1 f s' b e in
    (a, (m s).1, ap (λ r. (r, (m s).1)) er, e')

require_runs :
    (b : Bool) (x : Error) (s s' : BeaconState) (u : Unit {0})
    → require b x s ≡ (ok u, s')
    → (b ≡ true) × (s' ≡ s)
unfolding require
require_runs true x s s' u e = (refl, sym (ap (λ p. p.1) e))
require_runs false x s s' u e = absurd (cc (ap (λ p. p.0) e))

pub runs_require :
    (b : Bool) (x : Error) {s s' : BeaconState} {u : Unit {0}}
    → require b x s ≡ (ok u, s')
    → (b ≡ true) × (s' ≡ s)
runs_require b x {s} {s'} {u} e = require_runs b x s s' u e

pub runs_reads :
    {A : Type 0} (f : BeaconState → Outcome A) {s s' : BeaconState} {a : A}
    → reads f s ≡ (ok a, s')
    → (f s ≡ ok a) × (s' ≡ s)
unfolding reads
runs_reads f e = (ap (λ p. p.0) e, sym (ap (λ p. p.1) e))

pub runs_gets :
    {A : Type 0} (f : BeaconState → A) {s s' : BeaconState} {a : A}
    → gets f s ≡ (ok a, s')
    → (a ≡ f s) × (s' ≡ s)
unfolding gets
runs_gets f e = (sym (ok-injective (ap (λ p. p.0) e)), sym (ap (λ p. p.1) e))

pub runs_modify :
    (f : BeaconState → BeaconState) {s s' : BeaconState} {u : Unit {0}}
    → modify f s ≡ (ok u, s')
    → s' ≡ f s
unfolding modify
runs_modify f e = sym (ap (λ p. p.1) e)

-- The other way round: steps that are known to succeed.
pub steps_bind :
    {A B : Type 0} (m : M A) (f : A → M B) {s t : BeaconState} {a : A}
    → m s ≡ (ok a, t)
    → (m >>= f) s ≡ f a t
unfolding ◌>>=◌
steps_bind m f e = ap (λ r. continue r f) e

pub steps_require : {b : Bool} (x : Error) (s : BeaconState) → b ≡ true → require b x s ≡ (ok tt, s)
unfolding require
steps_require x s e = rw e refl

pub fails_require :
    {b : Bool} (x : Error) (s : BeaconState) → b ≡ false → require b x s ≡ (err x, s)
unfolding require
fails_require x s e = rw e refl

pub fails_bind :
    {A B : Type 0} (m : M A) (f : A → M B) {s t : BeaconState} {x : Error}
    → m s ≡ (err x, t)
    → (m >>= f) s ≡ (err x, t)
unfolding ◌>>=◌
fails_bind m f e = ap (λ r. continue r f) e

pub steps_index :
    {A : Type 0} (xs : BeaconState → List A) (i : ℕ) {s : BeaconState} {a : A}
    → get_elem? (xs s) i ≡ some a
    → reads (λ x. index (xs x) i) s ≡ (ok a, s)
unfolding reads
steps_index xs i {s} {a} e = ap (λ r. (r, s)) (rw (e, index) refl)

pub steps_modify_validator :
    (i : ℕ) (f : Validator → Validator) (s : BeaconState) {v : Validator}
    → get_elem? s.validators i ≡ some v
    → modify_validator i f s ≡ (ok tt, record s { validators = set s.validators i (f v) })
unfolding modify_validator
steps_modify_validator i f s e = rw (e, modify_validator) refl

modify_validator_runs :
    (o : Option Validator) (i : ℕ) (f : Validator → Validator) (s s' : BeaconState) {u : Unit {0}}
    → get_elem? s.validators i ≡ o
    → modify_validator i f s ≡ (ok u, s')
    → (v : Validator) × (get_elem? s.validators i ≡ some v)
      × (s' ≡ record s { validators = set s.validators i (f v) })
unfolding modify_validator
modify_validator_runs none i f s s' at e =
    absurd (cc (ap (λ p. p.0) (rw (at, modify_validator) at e)))
modify_validator_runs (some v) i f s s' at e =
    (v, at, sym (ap (λ p. p.1) (sym (steps_modify_validator i f s at) ∙ e)))

pub runs_modify_validator :
    (i : ℕ) (f : Validator → Validator) (s s' : BeaconState) {u : Unit {0}}
    → modify_validator i f s ≡ (ok u, s')
    → (v : Validator) × (get_elem? s.validators i ≡ some v)
      × (s' ≡ record s { validators = set s.validators i (f v) })
runs_modify_validator i f s s' e = modify_validator_runs (get_elem? s.validators i) i f s s' refl e

-- Steps that leave the state alone, with what follows them.
pub runs_check :
    {A : Type 0} (b : Bool) (x : Error) (k : M A) {s s' : BeaconState} {a : A}
    → (require b x >> k) s ≡ (ok a, s')
    → (b ≡ true) × (k s ≡ (ok a, s'))
unfolding ◌>>=◌ require
runs_check true x k e = (refl, e)
runs_check false x k e = absurd (cc (ap (λ p. p.0) e))

pub runs_get :
    {A B : Type 0} (f : BeaconState → A) (k : A → M B) {s s' : BeaconState} {b : B}
    → (gets f >>= k) s ≡ (ok b, s')
    → k (f s) s ≡ (ok b, s')
unfolding ◌>>=◌ gets
runs_get f k e = e

pub runs_read :
    {A B : Type 0} (f : BeaconState → Outcome A) (k : A → M B) {s s' : BeaconState} {b : B}
    → (reads f >>= k) s ≡ (ok b, s')
    → (a : A) × (f s ≡ ok a) × (k a s ≡ (ok b, s'))
unfolding ◌>>=◌ reads
runs_read f k {s} {s'} {b} e = continue_runs (f s) s k s' b e

pub runs_step :
    {A : Type 0} (f : BeaconState → BeaconState) (k : M A) {s s' : BeaconState} {a : A}
    → (modify f >> k) s ≡ (ok a, s')
    → k (f s) ≡ (ok a, s')
unfolding ◌>>=◌ modify
runs_step f k e = e

modify_balance_runs :
    (o : Option ℕ) (i : ℕ) (f : ℕ → ℕ) (s s' : BeaconState) {u : Unit {0}}
    → get_elem? s.balances i ≡ o
    → modify_balance i f s ≡ (ok u, s')
    → (b : ℕ) × (get_elem? s.balances i ≡ some b)
      × (s' ≡ record s { balances = set s.balances i (f b) })
unfolding modify_balance
modify_balance_runs none i f s s' at e = absurd (cc (ap (λ p. p.0) (rw (at, modify_balance) at e)))
modify_balance_runs (some b) i f s s' at e =
    (b, at, sym (ap (λ p. p.1) (rw (at, modify_balance) at e)))

pub runs_modify_balance :
    (i : ℕ) (f : ℕ → ℕ) (s s' : BeaconState) {u : Unit {0}}
    → modify_balance i f s ≡ (ok u, s')
    → (b : ℕ) × (get_elem? s.balances i ≡ some b)
      × (s' ≡ record s { balances = set s.balances i (f b) })
runs_modify_balance i f s s' e = modify_balance_runs (get_elem? s.balances i) i f s s' refl e
