-- ===== src/Utils/Shuffle.antt =====
-- `shuffled_index` (beacon/src/utils/mod.rs), the swap-or-not shuffle: each round pairs an index with
-- its flip, and the bit that decides depends on the greater of the two alone.
use shasper.Prelude.{
  ℕ, zero, suc, ◌+◌, ◌-◌, ◌%◌, ◌^◌, ◌≤◌, ◌<◌, ◌≡◌, refl, sym, ◌∙◌, ap, ◌⊎◌, inl, inr, max,
  Bool-cases, if◌then◌else◌, ◌==◌, leb, ltb, lt→ltb, le→leb, ◌&&◌, arith, take, ◌++◌, length,
  length-take, add64, sub64, Bytes, le_bytes, of_le_bytes,
}
use shasper.Outcome.{ok, err, index_out_of_range}
use shasper.Config.{Config, IsDigest}
use shasper.Utils.{
  hash, to_uint, flip_index, shuffle_bit, shuffle_round, shuffle_rounds, shuffled_index,
}

add_mod_self : (x n : ℕ) → x < n → (x + n) % n ≡ x
add_mod_self x n h = grind arith

small_mod : (x n : ℕ) → x < n → x % n ≡ x
small_mod x n h = grind arith

-- The flip reflects the index at the pivot, around the end of the range.
flip_index_lem :
    (p n i : ℕ)
    → p < n
    → i < n
    → n ≤ 2 ^ 40
    → flip_index p n i ≡ (if leb i p then p - i else p + n - i)
unfolding flip_index
flip_index_lem p n i hp hi hn =
    let e : sub64 (add64 p n) i ≡ p + n - i = omega arith in
    rw e (ground (arith, add_mod_self (p - i) n, small_mod (p + n - i) n, shift))
  where
    shift : i ≤ p → p + n - i ≡ p - i + n
    shift h = omega arith

flip_lt : (p n i : ℕ) → p < n → i < n → n ≤ 2 ^ 40 → flip_index p n i < n
flip_lt p n i hp hi hn = rw (flip_index_lem p n i hp hi hn) (ground arith)

flip_flip : (p n i : ℕ) → p < n → i < n → n ≤ 2 ^ 40 → flip_index p n (flip_index p n i) ≡ i
flip_flip p n i hp hi hn =
    ground
      (arith, flip_index_lem p n i, flip_lt p n i hp hi hn, flip_index_lem p n (flip_index p n i))

module _ (C : Config) (d : IsDigest C.hasher) (n : ℕ) (seed : Bytes) where
  pub pivot : ℕ → ℕ
  pivot r = of_le_bytes (take 8 (hash C (seed ++ le_bytes 1 r))) % n

  -- What a round makes of an index.
  pub round_value : ℕ → ℕ → ℕ
  round_value r i =
      let f = flip_index (pivot r) n i in if shuffle_bit C seed r (max i f) == 0 then i else f

  shuffle_round_value : (r i : ℕ) → shuffle_round C n seed r i ≡ ok (round_value r i)
  unfolding shuffle_round to_uint round_value pivot
  shuffle_round_value r i =
      let h = hash C (seed ++ le_bytes 1 r) in
      let e : length (take 8 h) ≡ 8 =
        rw (length-take 8 h, d.digest_length (seed ++ le_bytes 1 r)) (omega arith) in
      rw e refl

  module _ (big : n ≤ 2 ^ 40) where
    pivot_lt : (r i : ℕ) → i < n → pivot r < n
    unfolding pivot
    pivot_lt r i h = grind arith

    round_value_lt : (r i : ℕ) → i < n → round_value r i < n
    unfolding round_value
    round_value_lt r i h = ground (arith, flip_lt (pivot r) n i (pivot_lt r i h) h big)

    -- A round undoes itself.
    round_value_twice : (r i : ℕ) → i < n → round_value r (round_value r i) ≡ i
    unfolding round_value
    round_value_twice r i h =
        let f = flip_index (pivot r) n i in
        let back : flip_index (pivot r) n f ≡ i = flip_flip (pivot r) n i (pivot_lt r i h) h big in
        let same : max f i ≡ max i f = omega arith in
        elim (Bool-cases (shuffle_bit C seed r (max i f) == 0)) [
          | inl keep ↦ rw (keep, keep)
          | inr swap ↦ rw swap (rw (back, same, swap))
        ]

  pub values : ℕ → ℕ → ℕ → ℕ
  values zero r i = i
  values (suc m) r i = values m (suc r) (round_value r i)

  -- The rounds in reverse order.
  back_values : ℕ → ℕ → ℕ → ℕ
  back_values zero r i = i
  back_values (suc m) r i = round_value r (back_values m (suc r) i)

  shuffle_rounds-values : (m r i : ℕ) → shuffle_rounds C n seed m r i ≡ ok (values m r i)
  unfolding shuffle_rounds values
  shuffle_rounds-values zero r i = refl
  shuffle_rounds-values (suc m) r i =
      rw (shuffle_round_value r i) (shuffle_rounds-values m (suc r) (round_value r i))

  module _ (big : n ≤ 2 ^ 40) where
    pub values_lt : (m r i : ℕ) → i < n → values m r i < n
    unfolding values
    values_lt zero r i h = h
    values_lt (suc m) r i h = values_lt m (suc r) (round_value r i) (round_value_lt big r i h)

    back_values_lt : (m r i : ℕ) → i < n → back_values m r i < n
    unfolding back_values
    back_values_lt zero r i h = h
    back_values_lt (suc m) r i h = round_value_lt big r _ (back_values_lt m (suc r) i h)

    back-values : (m r i : ℕ) → i < n → back_values m r (values m r i) ≡ i
    unfolding values back_values
    back-values zero r i h = refl
    back-values (suc m) r i h =
        rw (back-values m (suc r) (round_value r i) (round_value_lt big r i h))
          (round_value_twice big r i h)

    values-back : (m r i : ℕ) → i < n → values m r (back_values m r i) ≡ i
    unfolding values back_values
    values-back zero r i h = refl
    values-back (suc m) r i h =
        rw (round_value_twice big r (back_values m (suc r) i) (back_values_lt m (suc r) i h))
          (values-back m (suc r) i h)

  pub shuffled_index_ok :
      (i : ℕ)
      → i < n
      → n ≤ 2 ^ 40
      → shuffled_index C i n seed ≡ ok (values C.shuffle_round_count 0 i)
  unfolding shuffled_index
  shuffled_index_ok i h big =
      rw (lt→ltb i n h, le→leb n (2 ^ 40) big) (shuffle_rounds-values C.shuffle_round_count 0 i)

  -- `shuffled_index` never panics: below the count, and with a count of at most 2 ^ 40, it returns an
  -- index below the count, and otherwise the error.
  pub shuffled_index_total :
      (i : ℕ)
      → ((i < n) × (n ≤ 2 ^ 40) × ((k : ℕ) × (shuffled_index C i n seed ≡ ok k) × (k < n)))
        ⊎ ((¬ ((i < n) × (n ≤ 2 ^ 40))) × (shuffled_index C i n seed ≡ err index_out_of_range))
  unfolding shuffled_index
  shuffled_index_total i = elim (Bool-cases (ltb i n && leb n (2 ^ 40))) [
    | inl e ↦
        let h : i < n = ground arith in
        let big : n ≤ 2 ^ 40 = ground arith in
        inl (h, big, (_, shuffled_index_ok i h big, values_lt big C.shuffle_round_count 0 i h))
    | inr e ↦ inr (λ p. ground arith, rw e)
  ]

  -- Two indices are never shuffled to one place.
  pub shuffled_index_injective :
      (i j k : ℕ)
      → i < n
      → j < n
      → n ≤ 2 ^ 40
      → shuffled_index C i n seed ≡ ok k
      → shuffled_index C j n seed ≡ ok k
      → i ≡ j
  shuffled_index_injective i j k hi hj big ei ej =
      let same : values C.shuffle_round_count 0 i ≡ values C.shuffle_round_count 0 j =
        cc (shuffled_index_ok i hi big, shuffled_index_ok j hj big) in
      sym (back-values big C.shuffle_round_count 0 i hi)
      ∙ ap (back_values C.shuffle_round_count 0) same
      ∙ back-values big C.shuffle_round_count 0 j hj

  -- Every place is the image of an index: the shuffle loses nobody.
  pub shuffled_index_surjective :
      (k : ℕ) → k < n → n ≤ 2 ^ 40 → (i : ℕ) × (i < n) × (shuffled_index C i n seed ≡ ok k)
  shuffled_index_surjective k h big =
      let i = back_values C.shuffle_round_count 0 k in
      let small : i < n = back_values_lt big C.shuffle_round_count 0 k h in
      (
        i,
        small,
        shuffled_index_ok i small big ∙ ap ok (values-back big C.shuffle_round_count 0 k h),
      )
