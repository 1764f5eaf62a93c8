-- ===== src/Utils/Committee.antt =====
-- `compute_committee` (beacon/src/utils/mod.rs): the committees of an epoch share out the validators.
use mathlib.Core.List.{
  Perm, map-map, Mem, Nodup, exists_of_mem-map, Mem-prop, mem-map_of_mem, perm_ext_iff_of_Nodup,
  flatten, map-append,
}
use mathlib.Core.List.Perm
use mathlib.Core.Logic.{∥∥₁_elim}
use native.Mathlib.Nat.{mul-le-mul_left}
use mathlib.Mathlib.Data.List.Nodup.{map_on}
use shasper.Prelude.{
  ℕ, zero, suc, ◌+◌, ◌-◌, ◌*◌, ◌/◌, ◌^◌, ◌≤◌, ◌<◌, ◌≡◌, sym, subst, ◌∙◌, ap, List, map, arith,
  length, get_or, range_from, Bytes, u64_mod, add64, mul64, false, ◌==◌,
}
use shasper.Outcome.{ok, ◌>>=◌, index, traverse}
use shasper.Config.{Config, IsDigest}
use shasper.Utils.{shuffled_index, compute_committee}
use shasper.Utils.Shuffle.{
  shuffled_index_injective, shuffled_index_surjective, values, values_lt, shuffled_index_ok,
}
use shasper.Utils.Ranges.{
  range_from-append, mem-range_from, lt-of_mem_range_from, range_from-Nodup, traverse-map,
  index_get_or, map-get_or-range_from,
}

-- Where committee `i` of `count` starts among `len` validators.
bound : ℕ → ℕ → ℕ → ℕ
bound len count i = len * i / count

bound-zero : (len count : ℕ) → 0 < count → bound len count 0 ≡ 0
unfolding bound
bound-zero len count h = grind arith

bound-count : (len count : ℕ) → 0 < count → bound len count count ≡ len
unfolding bound
bound-count len count h = grind arith

div_mono : (a b c : ℕ) → 0 < c → a ≤ b → a / c ≤ b / c
div_mono a b c h k = grind arith

bound_mono : (len count i j : ℕ) → 0 < count → i ≤ j → bound len count i ≤ bound len count j
unfolding bound
bound_mono len count i j h k = div_mono (len * i) (len * j) count h (grind arith)

flatten-ranges {ℓ} :
    {B : Type ℓ} (g : ℕ → B) (b : ℕ → ℕ)
    → ((i : ℕ) → b i ≤ b (suc i))
    → (k a : ℕ)
    → (b a ≤ b (a + k))
      × (flatten (map (λ i. map g (range_from (b i) (b (suc i) - b i))) (range_from a k))
          ≡ map g (range_from (b a) (b (a + k) - b a)))
unfolding flatten
flatten-ranges g b mono zero a =
    let e : a + 0 ≡ a = omega arith in
    let z : b a - b a ≡ 0 = omega arith in (rw e (omega arith), rw (e, z))
flatten-ranges g b mono (suc k) a =
    let e : a + suc k ≡ suc a + k = omega arith in
    let ih = flatten-ranges g b mono k (suc a) in
    let split : b (suc a + k) - b a ≡ (b (suc a) - b a) + (b (suc a + k) - b (suc a)) =
      omega (arith, mono a, ih.0) in
    let join : b a + (b (suc a) - b a) ≡ b (suc a) = omega (arith, mono a) in
    (rw e (omega (arith, mono a, ih.0)), rw (e, split, ih.1, ← range_from-append, join, map-append))

module _ (C : Config) (d : IsDigest C.hasher) (seed : Bytes) (indices : List ℕ)
    (big : length indices ≤ 2 ^ 40) where
  place : ℕ → ℕ
  place = values C d (length indices) seed C.shuffle_round_count 0

  place_lt : (i : ℕ) → i < length indices → place i < length indices
  unfolding place
  place_lt i h = values_lt C d (length indices) seed big C.shuffle_round_count 0 i h

  member : ℕ → ℕ
  member i = get_or indices (place i) 0

  -- The shuffled validators, in the order in which the committees take them.
  shuffled : List ℕ
  unfolding member
  shuffled = map member (range_from 0 (length indices))

  numbers : List ℕ
  numbers = range_from 0 (length indices)

  below : (x : ℕ) → Mem x numbers → x < length indices
  unfolding numbers
  below x m = omega (arith, (lt-of_mem_range_from 0 (length indices) x m).1)

  at_place : (x : ℕ) → x < length indices → shuffled_index C x (length indices) seed ≡ ok (place x)
  unfolding place
  at_place x h = shuffled_index_ok C d (length indices) seed x h big

  places-Nodup : Nodup (map place numbers)
  unfolding numbers
  places-Nodup =
      map_on
        (λ x mx y my e.
          shuffled_index_injective C d (length indices) seed x y (place y) (below x mx) (below y my)
            big (at_place x (below x mx) ∙ ap ok e) (at_place y (below y my)))
        (range_from-Nodup 0 (length indices))

  mem-places : (a : ℕ) → Mem a (map place numbers) → Mem a numbers
  unfolding numbers
  mem-places a m = ∥∥₁_elim (exists_of_mem-map m) Mem-prop λ w.
      mem-range_from 0 (length indices) a (omega arith) (
        let h = place_lt w.0 (below w.0 w.1) in
        subst (λ t. t < 0 + length indices) w.2 (omega arith))

  places-mem : (a : ℕ) → Mem a numbers → Mem a (map place numbers)
  unfolding numbers
  places-mem a m =
      let w = shuffled_index_surjective C d (length indices) seed a (below a m) big in
      let e : place w.0 ≡ a = cc (at_place w.0 w.1, w.2) in
      subst (λ t. Mem t (map place (range_from 0 (length indices)))) e
        (mem-map_of_mem place (mem-range_from 0 (length indices) w.0 (omega arith) (omega arith)))

  places-perm : Perm (map place numbers) numbers
  unfolding numbers
  places-perm =
      (perm_ext_iff_of_Nodup places-Nodup (range_from-Nodup 0 (length indices))).1
        (λ a. (mem-places a, places-mem a))

  shuffled-perm : Perm shuffled indices
  unfolding numbers shuffled member
  shuffled-perm =
      let get = λ (k : ℕ). get_or indices k 0 in
      subst (λ l. Perm l indices) (map-map get place (range_from 0 (length indices)))
        (subst (Perm (map get (map place (range_from 0 (length indices)))))
          (map-get_or-range_from indices) (Perm.map get places-perm))

  committee_member :
      (i : ℕ)
      → i < length indices
      → (shuffled_index C i (length indices) seed >>= λ k. index indices k) ≡ ok (member i)
  unfolding member place
  committee_member i h =
      rw (shuffled_index_ok C d (length indices) seed i h big)
        (index_get_or indices (place i) (place_lt i h))

  committee_slice : ℕ → ℕ → List ℕ
  committee_slice count i = map member (
      range_from (bound (length indices) count i)
        (bound (length indices) count (suc i) - bound (length indices) count i))

  module _ (count : ℕ) (pos : 0 < count) (fits : length indices * count < u64_mod)
      (word : count < u64_mod) where
    compute_committee_slice :
        (i : ℕ)
        → i < count
        → compute_committee C indices seed i count ≡ ok (committee_slice count i)
    unfolding compute_committee committee_slice bound
    compute_committee_slice i h =
        let n = length indices in
        let pos? : (count == 0) ≡ false = ground arith in
        let next : add64 i 1 ≡ suc i = omega arith in
        let low : n * i ≤ n * count = mul-le-mul_left n (omega arith) in
        let high : n * suc i ≤ n * count = mul-le-mul_left n h in
        let start : mul64 n i ≡ n * i = omega arith in
        let end : mul64 n (suc i) ≡ n * suc i = omega arith in
        rw (pos?, next, start, end)
          (traverse-map _ member (bound n count i) (bound n count (suc i) - bound n count i)
            (λ x lt. committee_member x (inside x lt)))
      where
        inside :
            (x : ℕ)
            → x
              < bound (length indices) count i
                + (bound (length indices) count (suc i) - bound (length indices) count i)
            → x < length indices
        inside x lt = omega (
          arith,
          bound_mono (length indices) count i (suc i) pos (omega arith),
          bound_mono (length indices) count (suc i) count pos h,
          bound-count (length indices) count pos,
        )

-- The committees of an epoch share out the validators: where no product wraps, each of the `count`
-- committees is computed without an error, and put together they are a rearrangement of the indices.
pub committees_partition :
    (C : Config) (d : IsDigest C.hasher) (seed : Bytes) (indices : List ℕ) (count : ℕ)
    → length indices ≤ 2 ^ 40
    → 0 < count
    → length indices * count < u64_mod
    → count < u64_mod
    → (shares : List (List ℕ)) × (traverse
          (λ i. compute_committee C indices seed i count)
          (range_from 0 count)
        ≡ ok shares)
      × Perm (flatten shares) indices
unfolding shuffled committee_slice bound
committees_partition C d seed indices count big pos fits word =
    let b = bound (length indices) count in
    let whole =
      (flatten-ranges (member C d seed indices big) b
        (λ i. bound_mono (length indices) count i (suc i) pos (omega arith)) count 0).1 in
    let first : b 0 ≡ 0 = bound-zero (length indices) count pos in
    let last : b (0 + count) ≡ length indices =
      ap b (omega arith) ∙ bound-count (length indices) count pos in
    let width : b (0 + count) - b 0 ≡ length indices = omega (arith, first, last) in
    (
      map (committee_slice C d seed indices big count) (range_from 0 count),
      traverse-map _ (committee_slice C d seed indices big count) 0 count (λ x lt.
          compute_committee_slice C d seed indices big count pos fits word x (omega arith)),
      subst (λ l. Perm l indices) (sym whole)
          (rw (width, first) (shuffled-perm C d seed indices big)),
    )
