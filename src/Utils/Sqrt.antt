-- ===== src/Utils/Sqrt.antt =====
-- `integer_squareroot` (beacon/src/utils/mod.rs): Newton's iteration.
use shasper.Prelude.{
  ℕ, zero, suc, ◌+◌, ◌-◌, ◌*◌, ◌/◌, ◌≤◌, ◌<◌, ◌≡◌, refl, sym, ◌∙◌, subst, ap, ◌⊎◌, inl, inr, arith,
  add64, u64_max,
}
use native.Mathlib.Decide.{dec_le, dec_lt}
use shasper.Outcome.{ok, panic}
use shasper.Utils.{sqrt_loop, integer_squareroot}

four_mul_le_add : (a d : ℕ) → 4 * (a * (a + d)) ≤ (a + (a + d)) * (a + (a + d))
four_mul_le_add a d = omega arith

four_mul_le : (a b : ℕ) → 4 * (a * b) ≤ (a + b) * (a + b)
four_mul_le a b = elim (dec_le a b) [
  | yes h ↦
      let e : a + (b - a) ≡ b = omega arith in
      subst (λ t. 4 * (a * t) ≤ (a + t) * (a + t)) e (four_mul_le_add a (b - a))
  | no h ↦
      let e : b + (a - b) ≡ a = omega arith in
      subst (λ t. 4 * (t * b) ≤ (t + b) * (t + b)) e (omega (arith, four_mul_le_add b (a - b)))
]

square_mono : (a b : ℕ) → a ≤ b → a * a ≤ b * b
square_mono a b h = grind arith

-- The mean of `x` and `n / x` is no less than the root.
mean_above : (n x q y : ℕ) → n < x * (q + 1) → x + q ≤ 2 * y + 1 → n < (y + 1) * (y + 1)
mean_above n x q y h e =
    omega (arith, four_mul_le x (q + 1), square_mono (x + (q + 1)) (2 * (y + 1)) (omega arith))

-- The sum in the loop does not wrap.
sum_below_suc : (n x q : ℕ) → suc q * suc x ≤ n → suc x + suc q ≤ n + 1
sum_below_suc n x q h = omega arith

sum_below : (n x q : ℕ) → 0 < x → 0 < q → q * x ≤ n → x + q ≤ n + 1
sum_below n zero q hx hq h = elim hx [ ]
sum_below n (suc x) zero hx hq h = elim hq [ ]
sum_below n (suc x) (suc q) hx hq h = sum_below_suc n x q h

div_bounds : (n x : ℕ) → 0 < x → (n / x * x ≤ n) × (n < x * (n / x + 1))
div_bounds n x h = grind arith

div_pos : (n x : ℕ) → 0 < x → x ≤ n → 0 < n / x
div_pos n x h k = grind arith

mean_pos : (n y : ℕ) → 0 < n → n < (y + 1) * (y + 1) → 0 < y
mean_pos n zero h k = omega arith
mean_pos n (suc y) h k = omega arith

not_below : (n x q : ℕ) → x + q ≤ n + 1 → x ≤ q → q * x ≤ n → x * x ≤ n
not_below n x q e h k = grind arith

abbrev pub IsRoot : ℕ → ℕ → Type 0
IsRoot n r = (r * r ≤ n) × (n < (r + 1) * (r + 1))

above : (n x : ℕ) → 0 < x → n < ((x + n / x) / 2 + 1) * ((x + n / x) / 2 + 1)
above n x h = mean_above n x (n / x) ((x + n / x) / 2) (div_bounds n x h).1 (omega arith)

no_wrap : (n x : ℕ) → n < u64_max → 0 < x → x ≤ n → add64 x (n / x) ≡ x + n / x
no_wrap n x h p k = omega (arith, sum_below n x (n / x) p (div_pos n x p k) (div_bounds n x p).0)

sqrt_loop_step :
    (fuel n x y : ℕ)
    → y < x
    → 0 < y
    → sqrt_loop (suc fuel) n x y ≡ sqrt_loop fuel n y (add64 y (n / y) / 2)
unfolding sqrt_loop
sqrt_loop_step fuel n x y h p = ground arith

sqrt_loop_stop : (fuel n x y : ℕ) → x ≤ y → sqrt_loop (suc fuel) n x y ≡ ok x
unfolding sqrt_loop
sqrt_loop_stop fuel n x y h = ground arith

sqrt_loop-IsRoot :
    (fuel n x y : ℕ)
    → 0 < n
    → n < u64_max
    → 0 < x
    → x ≤ n
    → x < fuel
    → n < (x + 1) * (x + 1)
    → y ≡ (x + n / x) / 2
    → (r : ℕ) × (sqrt_loop fuel n x y ≡ ok r) × IsRoot n r
sqrt_loop-IsRoot zero n x y pos small px le lt root e = elim lt [ ]
sqrt_loop-IsRoot (suc fuel) n x y pos small px le lt root e = elim (dec_lt y x) [
  | yes h ↦
      let up : n < (y + 1) * (y + 1) = subst (λ t. n < (t + 1) * (t + 1)) (sym e) (above n x px) in
      let py : 0 < y = mean_pos n y pos up in
      let next =
        sqrt_loop-IsRoot fuel n y (add64 y (n / y) / 2) pos small py (omega arith) (omega arith) up
          (rw (no_wrap n y small py (omega arith)) refl) in
      (next.0, sqrt_loop_step fuel n x y h py ∙ next.1, next.2)
  | no h ↦
      let bound = sum_below n x (n / x) px (div_pos n x px le) (div_bounds n x px).0 in
      (
        x,
        sqrt_loop_stop fuel n x y (omega arith),
        (not_below n x (n / x) bound (omega arith) (div_bounds n x px).0, root),
      )
]

self_div : (m : ℕ) → suc m / suc m ≡ 1
self_div m = grind arith

integer_squareroot_below :
    (n : ℕ) → n < u64_max → (r : ℕ) × (integer_squareroot n ≡ ok r) × IsRoot n r
unfolding integer_squareroot
integer_squareroot_below zero h = (0, refl, omega arith)
integer_squareroot_below (suc m) h =
    sqrt_loop-IsRoot (suc (suc m)) (suc m) (suc m) (add64 (suc m) 1 / 2) (omega arith) h
      (omega arith) (omega arith) (omega arith) (omega arith) (rw (self_div m) (omega arith))

integer_squareroot_overflow : integer_squareroot u64_max ≡ panic
unfolding integer_squareroot
integer_squareroot_overflow = refl

-- For every `u64`, `integer_squareroot` ends. Below the greatest `u64` it returns the greatest
-- number whose square is at most `n`; at the greatest one its first sum wraps to 0 and the loop
-- divides by zero.
pub integer_squareroot_cases :
    (n : ℕ)
    → n ≤ u64_max
    → ((r : ℕ) × (integer_squareroot n ≡ ok r) × IsRoot n r)
      ⊎ ((n ≡ u64_max) × (integer_squareroot n ≡ panic))
integer_squareroot_cases n h = elim (dec_lt n u64_max) [
  | yes below ↦ inl (integer_squareroot_below n below)
  | no above ↦
      let e : n ≡ u64_max = omega arith in
      inr (e, ap integer_squareroot e ∙ integer_squareroot_overflow)
]
