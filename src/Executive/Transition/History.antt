-- ===== src/Executive/Transition/History.antt =====
-- The roots of the blocks in their ring: `process_slot` of beacon/src/executive/transition/mod.rs and
-- `block_root_at_slot` of beacon/src/executive/helpers/accessors.rs.
use shasper.Prelude.{
  ℕ, ◌+◌, ◌%◌, ◌<◌, ◌≡◌, ◌≢◌, refl, arith, true, ltb, leb, ◌&&◌, add64, u64_mod, get_or-set_self,
  get_or-set_ne,
}
use native.Mathlib.Nat.{div-add-mod}
use shasper.Types.{BeaconState, signing_header}
use shasper.Outcome.{ok}
use shasper.Config.{Config}
use shasper.Executive.Accessors.{block_root_at_slot}
use shasper.Executive.Transition.{process_slot}
use shasper.Executive.Shape.{IsShaped}

rem_lt : (a n : ℕ) → 0 < n → a % n < n
rem_lt a n h = grind arith

-- Two slots less than a ring apart have two places.
rem_ne : (k n size : ℕ) → k < n → n < k + size → n % size ≢ k % size
rem_ne k n size h near e = grind (arith, div-add-mod n size, div-add-mod k size)

-- The state with the slot processed.
abbrev pub processed : Config → BeaconState → BeaconState
processed C s = record (process_slot C s) { slot = add64 s.slot 1 }

module _ (C : Config) (s : BeaconState) (h : IsShaped C s) (pos : 0 < C.slots_per_historical_root)
    (fits : s.slot + C.slots_per_historical_root < u64_mod) where
  block_root_at_slot-last :
      block_root_at_slot C (processed C s) s.slot
      ≡ ok (C.hasher.header_root (signing_header (process_slot C s).latest_block_header))
  unfolding block_root_at_slot process_slot
  block_root_at_slot-last =
      let there : add64 s.slot 1 ≡ s.slot + 1 = omega arith in
      let inside : (ltb s.slot (add64 s.slot 1)
            && leb (add64 s.slot 1) (add64 s.slot C.slots_per_historical_root))
          ≡ true =
        ground arith in
      rw
        (
          inside,
          get_or-set_self s.block_roots (s.slot % C.slots_per_historical_root) _
              shasper.Types.zero_hash
              (omega (arith, h.length-block_roots, rem_lt s.slot C.slots_per_historical_root pos)),
        )
        refl

  block_root_at_slot-earlier :
      (k : ℕ)
      → k < s.slot
      → s.slot < k + C.slots_per_historical_root
      → block_root_at_slot C (processed C s) k ≡ block_root_at_slot C s k
  unfolding block_root_at_slot process_slot
  block_root_at_slot-earlier k before near =
      let in_new : (ltb k (add64 s.slot 1)
            && leb (add64 s.slot 1) (add64 k C.slots_per_historical_root))
          ≡ true =
        ground arith in
      let in_old : (ltb k s.slot && leb s.slot (add64 k C.slots_per_historical_root)) ≡ true =
        ground arith in
      rw
        (
          in_new,
          in_old,
          get_or-set_ne s.block_roots (s.slot % C.slots_per_historical_root)
              (k % C.slots_per_historical_root) _ shasper.Types.zero_hash
              (rem_ne k s.slot C.slots_per_historical_root before near),
        )
        refl

-- After a slot is processed, `block_root_at_slot` gives for that slot the root of its latest header, and
-- for an earlier slot `k` that is less than a ring away what it gave before. (The state is well formed,
-- the ring has a place, and the slots fit in 64 bits.)
pub process_slot-history :
    (C : Config) (s : BeaconState) (k : ℕ)
    → IsShaped C s
    → 0 < C.slots_per_historical_root
    → s.slot + C.slots_per_historical_root < u64_mod
    → k < s.slot
    → s.slot < k + C.slots_per_historical_root
    → (block_root_at_slot C (processed C s) s.slot
        ≡ ok (C.hasher.header_root (signing_header (process_slot C s).latest_block_header)))
      × (block_root_at_slot C (processed C s) k ≡ block_root_at_slot C s k)
process_slot-history C s k h pos fits before near = (
  block_root_at_slot-last C s h pos fits,
  block_root_at_slot-earlier C s h pos fits k before near,
)
