-- ===== src/Justifier/Due.antt =====
-- The rules of `finalize` (beacon/src/components/justification.rs): when a checkpoint is due for finality.
use shasper.Prelude.{
  ℕ, zero, suc, ◌+◌, ◌≤◌, ◌<◌, ◌≡◌, ◌⊎◌, ◌↔◌, inl, inr, refl, Bool-cases, Bool, true, false, List,
  arith, u64_mod, get_or, ◌&&◌, ◌==◌, add64, if◌then◌else◌, subst,
}
use native.Mathlib.Decide.{ℕ_discrete}
use shasper.Justifier.{all_set, finalize}

-- The bits from one on, up to another, are set: the epochs that many before the current one are justified.
abbrev pub Justified : List Bool → ℕ → ℕ → Type 0
Justified bits first last = (i : ℕ) → first ≤ i → i ≤ last → get_or bits i false ≡ true

all_set-get_or :
    (bits : List Bool) (n from i : ℕ)
    → all_set bits from n ≡ true
    → from ≤ i
    → i < from + n
    → get_or bits i false ≡ true
unfolding all_set
all_set-get_or bits zero from i e a b = absurd (omega arith)
all_set-get_or bits (suc n) from i e a b = elim (ℕ_discrete from i) [
  | yes here ↦ rw (← here) (ground arith)
  | no later ↦ all_set-get_or bits n (from + 1) i (ground arith) (omega arith) (omega arith)
]

get_or-all_set :
    (bits : List Bool) (n from : ℕ)
    → ((i : ℕ) → from ≤ i → i < from + n → get_or bits i false ≡ true)
    → all_set bits from n ≡ true
unfolding all_set
get_or-all_set bits zero from h = refl
get_or-all_set bits (suc n) from h =
    let first = h from (omega arith) (omega arith) in
    let others = get_or-all_set bits n (from + 1) (λ i a b. h i (omega arith) (omega arith)) in
    ground (arith, first, others)

module _ {A : Type 0} (epoch : A → ℕ) where
  -- `c` is `age` epochs old, and the epochs are justified from the one `first` epochs old back to its own.
  pub record Due (bits : List Bool) (now first age : ℕ) (c : A) : Type 0 where
    pub aged : epoch c + age ≡ now
    pub since : Justified bits first age

  -- The last justified checkpoint is one or two epochs old, and every epoch since, the current one too, is
  -- justified.
  abbrev pub CurrentDue : List Bool → ℕ → A → Type 0
  CurrentDue bits now c = (age : ℕ) × (1 ≤ age) × (age ≤ 2) × Due bits now 0 age c

  -- The one before it is two or three epochs old, and every epoch since but the current one is justified.
  abbrev pub PreviousDue : List Bool → ℕ → A → Type 0
  PreviousDue bits now c = (age : ℕ) × (2 ≤ age) × (age ≤ 3) × Due bits now 1 age c

  -- The finalized checkpoint: the last justified one where that is due, else the one before it where that
  -- is due, else the old one.
  abbrev pub Choice : List Bool → ℕ → A → A → A → A → Type 0
  Choice bits now old_previous old_current finalized result =
      (CurrentDue bits now old_current × (result ≡ old_current))
      ⊎ ((¬ (CurrentDue bits now old_current)
            × PreviousDue bits now old_previous
            × (result ≡ old_previous))
          ⊎ (¬ (CurrentDue bits now old_current)
              × ¬ (PreviousDue bits now old_previous)
              × (result ≡ finalized)))

  -- The test of one rule of `finalize`, for bits `from` to `k`.
  abbrev test : List Bool → ℕ → A → ℕ → ℕ → ℕ → Bool
  test bits now old from n k = all_set bits from n && (add64 (epoch old) k == now)

  test-Due :
      (bits : List Bool) (now : ℕ) (old : A) (from n k : ℕ)
      → epoch old + 3 < u64_mod
      → k ≤ 3
      → from + n ≡ k + 1
      → (test bits now old from n k ≡ true) ↔ Due bits now from k old
  test-Due bits now old from n k small hi size = (λ e. due e, λ d. holds d)
    where
      due : test bits now old from n k ≡ true → Due bits now from k old
      due e =
          let set? : all_set bits from n ≡ true = ground arith in
          record {
            aged = ground arith;
            since = λ i a b. all_set-get_or bits n from i set? a (omega arith);
          }

      holds : Due bits now from k old → test bits now old from n k ≡ true
      holds d =
          let set? : all_set bits from n ≡ true =
            get_or-all_set bits n from (λ i a b. d.since i a (omega arith)) in
          let at : epoch old + k ≡ now = d.aged in ground arith

  -- Where neither rule of a checkpoint applies, it is not due.
  none-Due :
      (bits : List Bool) (now : ℕ) (old : A) (from n k : ℕ)
      → epoch old + 3 < u64_mod
      → k ≤ 2
      → from + n ≡ k + 1
      → test bits now old from n k ≡ false
      → test bits now old from (suc n) (suc k) ≡ false
      → ¬ ((age : ℕ) × (k ≤ age) × (age ≤ suc k) × Due bits now from age old)
  none-Due bits now old from n k small hi size e_1 e_2 (age, lo, up, due) =
      elim (ℕ_discrete age k) [
        | yes here ↦
            let d = subst (λ (x : ℕ). Due bits now from x old) here due in
            let set? = (test-Due bits now old from n k small (omega arith) size).1 d in absurd (cc)
        | no later ↦
            let there : age ≡ suc k = omega arith in
            let d = subst (λ (x : ℕ). Due bits now from x old) there due in
            let set? =
              (test-Due bits now old from (suc n) (suc k) small (omega arith) (omega arith)).1 d in
            absurd (cc)
      ]

  pub finalize-Choice :
      (bits : List Bool) (now : ℕ) (old_previous old_current finalized : A)
      → epoch old_previous + 3 < u64_mod
      → epoch old_current + 3 < u64_mod
      → Choice bits now old_previous old_current finalized
          (finalize epoch bits old_previous old_current now finalized)
  unfolding finalize
  finalize-Choice bits now old_previous old_current finalized sp sc =
      elim (Bool-cases (test bits now old_current 0 2 1)) [
        | inl e ↦
            rw e (inl ((1, omega arith, omega arith, (rule_c 2 1 (omega arith) refl).0 e), refl))
        | inr e4 ↦ rw e4 (elim (Bool-cases (test bits now old_current 0 3 2)) [
          | inl e ↦
              rw e (inl ((2, omega arith, omega arith, (rule_c 3 2 (omega arith) refl).0 e), refl))
          | inr e3 ↦
              rw e3
                (inr (previous (none-Due bits now old_current 0 2 1 sc (omega arith) refl e4 e3)))
        ])
      ]
    where
      rule_c :
          (n k : ℕ)
          → k ≤ 3
          → 0 + n ≡ k + 1
          → (test bits now old_current 0 n k ≡ true) ↔ Due bits now 0 k old_current
      rule_c n k hi size = test-Due bits now old_current 0 n k sc hi size

      rule_p :
          (n k : ℕ)
          → k ≤ 3
          → 1 + n ≡ k + 1
          → (test bits now old_previous 1 n k ≡ true) ↔ Due bits now 1 k old_previous
      rule_p n k hi size = test-Due bits now old_previous 1 n k sp hi size

      previous :
          ¬ (CurrentDue bits now old_current)
          → (let result =
                if test bits now old_previous 1 2 2
                then old_previous
                else (if test bits now old_previous 1 3 3 then old_previous else finalized) in
              ((¬ (CurrentDue bits now old_current)
                  × PreviousDue bits now old_previous
                  × (result ≡ old_previous))
                ⊎ (¬ (CurrentDue bits now old_current)
                    × ¬ (PreviousDue bits now old_previous)
                    × (result ≡ finalized))))
      previous other = elim (Bool-cases (test bits now old_previous 1 2 2)) [
        | inl e ↦
            rw e (
              inl (other, (2, omega arith, omega arith, (rule_p 2 2 (omega arith) refl).0 e), refl))
        | inr e2 ↦ rw e2 (elim (Bool-cases (test bits now old_previous 1 3 3)) [
          | inl e ↦ rw e (
              inl (other, (3, omega arith, omega arith, (rule_p 3 3 (omega arith) refl).0 e), refl))
          | inr e1 ↦
              rw e1 (
                inr (other, none-Due bits now old_previous 1 2 2 sp (omega arith) refl e2 e1, refl))
        ])
      ]
