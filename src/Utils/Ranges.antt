-- ===== src/Utils/Ranges.antt =====
-- Ranges of numbers, and the lists and loops that run over them.
use mathlib.Core.List.{Mem, Nodup, Nodup-cons, Nodup-nil, not-mem-nil, mem-cons}
use mathlib.Core.HLevel.{×_prop}
use native.Mathlib.Bridge.{le_prop}
use native.Mathlib.Decide.{ℕ_discrete}
use mathlib.Core.Logic.Or
use shasper.Prelude.{
  ℕ, zero, suc, ◌+◌, ◌≤◌, ◌<◌, ◌≡◌, refl, ◌∙◌, ap, List, [], ◌∷◌, ◌++◌, map, arith, length, get_or,
  range_from,
}
use shasper.Outcome.{Outcome, ok, index, traverse}

pub range_from-append : (a m k : ℕ) → range_from a m ++ range_from (a + m) k ≡ range_from a (m + k)
range_from-append a zero k =
    let e : a + 0 ≡ a = omega arith in let f : 0 + k ≡ k = omega arith in rw (e, f)
range_from-append a (suc m) k =
    let e : a + suc m ≡ suc a + m = omega arith in
    let f : suc m + k ≡ suc (m + k) = omega arith in
    rw (e, f) (ap (◌∷◌ a) (range_from-append (suc a) m k))

pub mem-range_from : (a n x : ℕ) → a ≤ x → x < a + n → Mem x (range_from a n)
mem-range_from a zero x h k = absurd (omega arith)
mem-range_from a (suc n) x h k = elim (ℕ_discrete x a) [
  | yes e ↦ mem-cons.1 (Or.inl e)
  | no ne ↦ mem-cons.1 (Or.inr (mem-range_from (suc a) n x (omega arith) (omega arith)))
]

pub lt-of_mem_range_from : (a n x : ℕ) → Mem x (range_from a n) → (a ≤ x) × (x < a + n)
lt-of_mem_range_from a zero x h = absurd (not-mem-nil h)
lt-of_mem_range_from a (suc n) x h =
    Or.elim (×_prop le_prop le_prop) (mem-cons.0 h) (λ e. omega arith)
      (λ m. omega (arith, lt-of_mem_range_from (suc a) n x m))

pub range_from-Nodup : (a n : ℕ) → Nodup (range_from a n)
range_from-Nodup a zero = Nodup-nil
range_from-Nodup a (suc n) =
    Nodup-cons.1
      (λ m. omega (arith, (lt-of_mem_range_from (suc a) n a m).0), range_from-Nodup (suc a) n)

pub traverse-map {ℓ} :
    {B : Type ℓ} (f : ℕ → Outcome B) (g : ℕ → B) (a n : ℕ)
    → ((x : ℕ) → x < a + n → f x ≡ ok (g x))
    → traverse f (range_from a n) ≡ ok (map g (range_from a n))
traverse-map f g a zero h = refl
traverse-map f g a (suc n) h =
    rw (h a (omega arith), traverse-map f g (suc a) n (λ x k. h x (omega arith)))

pub index_get_or :
    {E : Type 0} (xs : List ℕ) (i : ℕ) → i < length xs → index {E = E} xs i ≡ ok (get_or xs i 0)
index_get_or [] i h = elim h [ ]
index_get_or (x ∷ xs) zero h = refl
index_get_or (x ∷ xs) (suc i) h = index_get_or xs i (omega arith)

pub map-range_from-suc {ℓ} :
    {B : Type ℓ} (g : ℕ → B) (a n : ℕ)
    → map g (range_from (suc a) n) ≡ map (λ i. g (suc i)) (range_from a n)
map-range_from-suc g a zero = refl
map-range_from-suc g a (suc n) = ap (◌∷◌ (g (suc a))) (map-range_from-suc g (suc a) n)

-- A list is read off by its indices.
pub map-get_or-range_from : (xs : List ℕ) → map (λ i. get_or xs i 0) (range_from 0 (length xs)) ≡ xs
map-get_or-range_from [] = refl
map-get_or-range_from (x ∷ xs) =
    ap (◌∷◌ x)
      (map-range_from-suc (λ i. get_or (x ∷ xs) i 0) 0 (length xs) ∙ map-get_or-range_from xs)
