-- ===== src/Tests/Helpers.antt =====
-- The helpers of beacon/src/utils/mod.rs on concrete inputs.
use shasper.Prelude.{ℕ, ◌≤◌, ◌<◌, ◌^◌, ◌≡◌, ◌⊎◌, refl, arith, List, [], ◌∷◌, u64_max, range_from}
use mathlib.Core.List.{flatten}
use mathlib.Core.List.{Perm}
use shasper.Outcome.{ok, err, panic, traverse, index_out_of_range}
use shasper.Utils.{
  integer_squareroot, shuffled_index, compute_committee, shuffle_rounds, shuffle_round, shuffle_bit,
  flip_index, to_uint,
}
use shasper.Utils.Sqrt.{IsRoot, integer_squareroot_cases}
use shasper.Utils.Shuffle.{
  shuffled_index_total, shuffled_index_injective, shuffled_index_surjective,
}
use shasper.Utils.Committee.{committees_partition}
use shasper.Tests.Samples.{mixer-IsDigest, small, first_seed}

integer_squareroot_cases_example :
    ((r : ℕ) × (integer_squareroot 99 ≡ ok r) × IsRoot 99 r)
    ⊎ ((99 ≡ u64_max) × (integer_squareroot 99 ≡ panic))
integer_squareroot_cases_example = integer_squareroot_cases 99 (omega arith)

shuffled_index_total_example :
    ((3 < 5) × (5 ≤ 2 ^ 40) × ((k : ℕ) × (shuffled_index small 3 5 first_seed ≡ ok k) × (k < 5)))
    ⊎ ((¬ ((3 < 5) × (5 ≤ 2 ^ 40)))
        × (shuffled_index small 3 5 first_seed ≡ err index_out_of_range))
shuffled_index_total_example = shuffled_index_total small mixer-IsDigest 5 first_seed 3

-- The shuffle at work.
shuffled_3 : shuffled_index small 3 5 first_seed ≡ ok 3
unfolding shuffled_index shuffle_rounds shuffle_round shuffle_bit flip_index to_uint
shuffled_3 = refl

shuffled_index_injective_example : ◌≡◌ {A = ℕ} 3 3
shuffled_index_injective_example =
    shuffled_index_injective small mixer-IsDigest 5 first_seed 3 3 3 (omega arith) (omega arith)
      (omega arith) shuffled_3 shuffled_3

shuffled_index_surjective_example : (i : ℕ) × (i < 5) × (shuffled_index small i 5 first_seed ≡ ok 2)
shuffled_index_surjective_example =
    shuffled_index_surjective small mixer-IsDigest 5 first_seed 2 (omega arith) (omega arith)

committees_partition_example :
    (shares : List (List ℕ)) × (traverse
        (λ i. compute_committee small (10 ∷ 11 ∷ 12 ∷ 13 ∷ 14 ∷ []) first_seed i 2)
        (range_from 0 2)
      ≡ ok shares)
    × Perm (flatten shares) (10 ∷ 11 ∷ 12 ∷ 13 ∷ 14 ∷ [])
committees_partition_example =
    committees_partition small mixer-IsDigest first_seed (10 ∷ 11 ∷ 12 ∷ 13 ∷ 14 ∷ []) 2
      (omega arith) (omega arith) (omega arith) (omega arith)
