-- ===== src/Results.antt =====
-- What a call does: it returns a value or an error of its crate, it panics (an index out of range, a
-- division by zero), or it never ends.
use shasper.Prelude.{
  ◌≡◌, refl, ℕ, ◌/◌, ◌%◌, Bool, true, false, List, [], ◌∷◌, none, some, ◌==◌, if◌then◌else◌,
  get_elem?, set, length, ltb,
}

-- The result of a call whose errors are of the type `E`.
pub data Result {ℓ} (E : Type 0) (A : Type ℓ) : Type ℓ where
  ok : A → Result E A
  err : E → Result E A
  panic : Result E A
  diverge : Result E A

module _ {ℓ κ} {E : Type 0} {A : Type ℓ} {B : Type κ} where
  infixl 5 ◌>>=◌
  abbrev pub ◌>>=◌ : Result E A → (A → Result E B) → Result E B
  diverge >>= next = diverge
  panic >>= next = panic
  err e >>= next = err e
  ok value >>= next = next value

infixl 5 ◌>>◌
abbrev pub ◌>>◌ {κ} : {E : Type 0} {B : Type κ} → Result E (Unit {0}) → Result E B → Result E B
checked >> rest = checked >>= λ done. rest

-- `if !b { return Err(e) }`.
abbrev pub require : {E : Type 0} → Bool → E → Result E (Unit {0})
require true e = ok tt
require false e = err e

-- `xs[i]` on a list.
abbrev pub index {ℓ} : {E : Type 0} {A : Type ℓ} → List A → ℕ → Result E A
index xs i = elim (get_elem? xs i) [ none ↦ panic | some a ↦ ok a ]

-- `xs[i] = v` on a list.
abbrev pub update {ℓ} : {E : Type 0} {A : Type ℓ} → List A → ℕ → A → Result E (List A)
update xs i v = if ltb i (length xs) then ok (set xs i v) else panic

-- `a / b` and `a % b` where `b` is no constant of the configuration.
abbrev pub checked_div : {E : Type 0} → ℕ → ℕ → Result E ℕ
checked_div a b = if b == 0 then panic else ok (a / b)

abbrev pub checked_rem : {E : Type 0} → ℕ → ℕ → Result E ℕ
checked_rem a b = if b == 0 then panic else ok (a % b)

-- `iter().map(f).collect::<Result<Vec<_>, _>>()`: the first failure ends it.
abbrev pub traverse {ℓ κ} :
    {E : Type 0} {A : Type ℓ} {B : Type κ} → (A → Result E B) → List A → Result E (List B)
traverse f [] = ok []
traverse f (x ∷ xs) = f x >>= λ y. traverse f xs >>= λ ys. ok (y ∷ ys)

-- A loop that updates `s` for each element and may fail.
abbrev pub try_fold {ℓ κ} :
    {E : Type 0} {S : Type ℓ} {A : Type κ} → (S → A → Result E S) → S → List A → Result E S
try_fold f s [] = ok s
try_fold f s (x ∷ xs) = f s x >>= λ s'. try_fold f s' xs

-- Inversion of a call that succeeds.
module _ {ℓ κ} {E : Type 0} {A : Type ℓ} {B : Type κ} where
  pub >>=-eq-ok :
      (call : Result E A) (next : A → Result E B) {result : B}
      → (call >>= next) ≡ ok result
      → (value : A) × (call ≡ ok value) × (next value ≡ ok result)
  >>=-eq-ok diverge next ran = absurd (cc)
  >>=-eq-ok panic next ran = absurd (cc)
  >>=-eq-ok (err e) next ran = absurd (cc)
  >>=-eq-ok (ok value) next ran = (value, refl, ran)

pub ok-injective {ℓ} :
    {E : Type 0} {A : Type ℓ} {a b : A} → ◌≡◌ {A = Result E A} (ok a) (ok b) → a ≡ b
ok-injective h = cc

-- A split on a result that keeps the equation.
pub data ResultView {ℓ} {E : Type 0} {A : Type ℓ} (r : Result E A) : Type ℓ where
  is_ok : (a : A) → r ≡ ok a → ResultView r
  is_err : (e : E) → r ≡ err e → ResultView r
  is_panic : r ≡ panic → ResultView r
  is_diverge : r ≡ diverge → ResultView r

pub Result-cases {ℓ} : {E : Type 0} {A : Type ℓ} (r : Result E A) → ResultView r
Result-cases (ok a) = is_ok a refl
Result-cases (err e) = is_err e refl
Result-cases panic = is_panic refl
Result-cases diverge = is_diverge refl
