-- ===== src/Utils.antt =====
-- beacon/src/utils/mod.rs and `Config::hash`, with the constants of beacon/src/consts.rs.
-- The chunks that a hash is fed with are appended. A `H256` has 32 bytes, so that a read at an index
-- below 32 takes `get_or`.
pub mod Sqrt
pub mod Shuffle
pub mod Ranges
pub mod Committee
use Prim.Native.Nat.{compare, Ordering}
use shasper.Prelude.{
  ℕ, zero, suc, ◌+◌, ◌-◌, ◌*◌, ◌/◌, ◌%◌, ◌^◌, max, Bool, true, false, not, ◌&&◌, ◌||◌, Option, none,
  some, List, [], ◌∷◌, ◌++◌, if◌then◌else◌, ◌==◌, ltb, leb, length, take, drop, get_or, replicate,
  range_from, Bytes, bytes_eq, le_bytes, of_le_bytes, add64, sub64, mul64, u64_max,
}
use shasper.Outcome.{
  Outcome, ok, err, panic, diverge, ◌>>=◌, ◌>>◌, require, index, checked_div, traverse,
  index_out_of_range,
}
use shasper.Config.{Config}

abbrev pub far_future_epoch : ℕ
far_future_epoch = u64_max

abbrev pub base_rewards_per_epoch : ℕ
base_rewards_per_epoch = 4

abbrev pub deposit_contract_tree_depth : ℕ
deposit_contract_tree_depth = 32

unfoldable pub to_bytes : ℕ → Bytes
to_bytes v = le_bytes 8 v ++ replicate 24 0

-- `copy_from_slice` panics if the lengths differ.
unfoldable pub to_uint : Bytes → Outcome ℕ
to_uint v = if length v == 8 then ok (of_le_bytes v) else panic

-- The loop of `integer_squareroot`.
unfoldable pub sqrt_loop : ℕ → ℕ → ℕ → ℕ → Outcome ℕ
sqrt_loop zero n x y = diverge
sqrt_loop (suc fuel) n x y =
    let rest = checked_div n y >>= λ q. sqrt_loop fuel n y (add64 y q / 2) in
    if ltb y x then rest else ok x

-- `x` falls in every round, so that `n + 1` rounds are enough.
unfoldable pub integer_squareroot : ℕ → Outcome ℕ
unfolding sqrt_loop
integer_squareroot n = sqrt_loop (suc n) n n (add64 n 1 / 2)

-- The first `n` bytes that differ decide.
unfoldable pub compare_bytes : ℕ → Bytes → Bytes → Ordering
compare_bytes zero a b = Ordering.eq
compare_bytes (suc n) [] b = Ordering.eq
compare_bytes (suc n) (x ∷ a) [] = Ordering.eq
compare_bytes (suc n) (x ∷ a) (y ∷ b) =
    if ltb y x then Ordering.gt else if ltb x y then Ordering.lt else compare_bytes n a b

unfoldable pub compare_hash : Bytes → Bytes → Ordering
unfolding compare_bytes
compare_hash a b = compare_bytes 32 a b

unfoldable pub bls_domain : ℕ → Bytes → ℕ
bls_domain domain_type fork_version = of_le_bytes (le_bytes 4 domain_type ++ fork_version)

-- `flip`, from the pivot of the round.
unfoldable pub flip_index : ℕ → ℕ → ℕ → ℕ
flip_index pivot index_count index = sub64 (add64 pivot index_count) index % index_count

module _ (C : Config) where
  abbrev pub hash : Bytes → Bytes
  hash = C.hasher.digest

  abbrev pub epoch_of_slot : ℕ → ℕ
  epoch_of_slot slot = slot / C.slots_per_epoch

  abbrev pub start_slot_of_epoch : ℕ → ℕ
  start_slot_of_epoch epoch = mul64 epoch C.slots_per_epoch

  abbrev pub activation_exit_epoch : ℕ → ℕ
  activation_exit_epoch epoch = add64 (add64 epoch 1) C.max_seed_lookahead

  -- `bit`, from the round and the position.
  unfoldable pub shuffle_bit : Bytes → ℕ → ℕ → ℕ
  shuffle_bit seed round position =
      let source = hash (seed ++ le_bytes 1 round ++ le_bytes 4 (position / 256)) in
      let byte = get_or source (position % 256 / 8) 0 in byte / 2 ^ (position % 8) % 2

  -- One round of the loop of `shuffled_index`.
  unfoldable pub shuffle_round : ℕ → Bytes → ℕ → ℕ → Outcome ℕ
  unfolding to_uint flip_index shuffle_bit
  shuffle_round index_count seed round index = do
    word ← to_uint (take 8 (hash (seed ++ le_bytes 1 round)))
    let flip = flip_index (word % index_count) index_count index
    let position = max index flip
    ok (if shuffle_bit seed round position == 0 then index else flip)

  -- `n` rounds from `round` on.
  unfoldable pub shuffle_rounds : ℕ → Bytes → ℕ → ℕ → ℕ → Outcome ℕ
  shuffle_rounds index_count seed zero round index = ok index
  shuffle_rounds index_count seed (suc n) round index =
      shuffle_round index_count seed round index >>= λ next.
      shuffle_rounds index_count seed n (suc round) next

  unfoldable pub shuffled_index : ℕ → ℕ → Bytes → Outcome ℕ
  unfolding shuffle_rounds shuffle_round
  shuffled_index index index_count seed =
      require (ltb index index_count && leb index_count (2 ^ 40)) index_out_of_range
      >> shuffle_rounds index_count seed C.shuffle_round_count 0 index

  unfoldable pub compute_committee : List ℕ → Bytes → ℕ → ℕ → Outcome (List ℕ)
  unfolding shuffled_index
  compute_committee indices seed committee count = do
    start ← checked_div (mul64 (length indices) committee) count
    end ← checked_div (mul64 (length indices) (add64 committee 1)) count
    traverse (λ i. shuffled_index i (length indices) seed >>= λ k. index indices k)
        (range_from start (end - start))

  unfoldable pub is_valid_merkle_branch : Bytes → List Bytes → ℕ → ℕ → Bytes → Bool
  is_valid_merkle_branch leaf proof depth position root =
      if not (length proof == depth)
      then false
      else elim (C.hasher.branch_root leaf proof depth position) [
        | none ↦ false
        | some computed ↦ bytes_eq computed root
      ]
