-- ===== src/Pool/Aggregates.antt =====
-- What the pool of attestations (blockchain/src/pool.rs) aggregates.
use shasper.Prelude.{
  ◌≡◌, refl, ap, ◌∙◌, ℕ, zero, suc, ◌+◌, ◌≤◌, ◌<◌, Bool, true, false, List, [], ◌∷◌, ◌++◌,
  if◌then◌else◌, length, get_elem?, get_elem?-lt, lt-of_get_elem?, Bool-cases, inl, inr, Bytes,
  bytes_eq, arith, Option, some, none,
}
use shasper.Types.{Attestation}
use shasper.Outcome.{Error, Outcome, ok, panic, index}
use shasper.Config.{Config, BlsConfig}
use shasper.Pool.{AttestationPool, has_duplicate, push_into, hash_of, push_entry, push}

index_some :
    {A : Type 0} (xs : List A) (i : ℕ) (x : A)
    → get_elem? xs i ≡ some x
    → index {E = Error} xs i ≡ ok x
index_some {A} xs i x e =
    let read : Option A → Outcome A = λ o. elim o [ none ↦ panic | some a ↦ ok a ] in ap read e

if_same : (b : Bool) → (if b then true else true) ≡ true
if_same true = refl
if_same false = refl

-- A bit that is set is found, whatever the bits of the old attestation.
has_duplicate-true :
    (bits : List Bool) (i n : ℕ) → i + n ≤ length bits → has_duplicate bits i n true ≡ ok true
unfolding has_duplicate
has_duplicate-true bits i zero h = refl
has_duplicate-true bits i (suc n) h =
    let (bit, e) = get_elem?-lt bits i (omega arith) in
    rw (index_some bits i bit e) (
      ap (λ (b : Bool). has_duplicate bits (suc i) n b) (if_same bit)
      ∙ has_duplicate-true bits (suc i) n (omega arith))

has_duplicate_set :
    (bits : List Bool) (i n k : ℕ)
    → i + n ≤ length bits
    → k < n
    → get_elem? bits (i + k) ≡ some true
    → has_duplicate bits i n false ≡ ok true
unfolding has_duplicate
has_duplicate_set bits i zero k h lt set_bit = absurd (omega arith)
has_duplicate_set bits i (suc n) zero h lt set_bit =
    let here : get_elem? bits i ≡ some true =
      ap (λ (j : ℕ). get_elem? bits j) (omega arith) ∙ set_bit in
    rw (index_some bits i true here) (has_duplicate-true bits (suc i) n (omega arith))
has_duplicate_set bits i (suc n) (suc k) h lt set_bit =
    let (bit, e) = get_elem?-lt bits i (omega arith) in
    let there : get_elem? bits (suc i + k) ≡ some true =
      ap (λ (j : ℕ). get_elem? bits j) (omega arith) ∙ set_bit in
    rw (index_some bits i bit e) (elim (Bool-cases bit) [
      | inl set_here ↦ rw set_here (has_duplicate-true bits (suc i) n (omega arith))
      | inr clear ↦ rw clear (has_duplicate_set bits (suc i) n k (omega arith) (omega arith) there)
    ])

-- The attestations of the root have as many bits as `n`.
abbrev pub AllBits : ℕ → List Attestation → Type 0
AllBits n [] = Unit
AllBits n (a ∷ as') = (length a.aggregation_bits ≡ n) × AllBits n as'

module _ (C : Config) (bls : BlsConfig) where
  push_into_set :
      (existings : List Attestation) (a : Attestation) (k : ℕ)
      → AllBits (length a.aggregation_bits) existings
      → get_elem? a.aggregation_bits k ≡ some true
      → push_into C bls existings a ≡ ok (existings ++ a ∷ [])
  unfolding push_into
  push_into_set [] a k all set_bit = refl
  push_into_set (existing ∷ existings) a k (size, all) set_bit =
      let inside = lt-of_get_elem? a.aggregation_bits k set_bit in
      let found : has_duplicate a.aggregation_bits 0 (length existing.aggregation_bits) false
          ≡ ok true =
        has_duplicate_set a.aggregation_bits 0 (length existing.aggregation_bits) k (omega arith)
          (omega arith) (ap (λ (j : ℕ). get_elem? a.aggregation_bits j) (omega arith) ∙ set_bit) in
      rw (found, push_into_set existings a k all set_bit) refl

-- The pool with an attestation at the end of those of its root.
abbrev pub appended : Bytes → Attestation → AttestationPool → AttestationPool
appended hash a [] = (hash, a ∷ []) ∷ []
appended hash a ((h, existings) ∷ pool) =
    if bytes_eq h hash
    then (h, existings ++ a ∷ []) ∷ pool
    else (h, existings) ∷ appended hash a pool

-- The attestations in the pool have as many bits as `n`.
abbrev pub SameBits : ℕ → AttestationPool → Type 0
SameBits n [] = Unit
SameBits n ((h, existings) ∷ pool) = AllBits n existings × SameBits n pool

module _ (C : Config) (bls : BlsConfig) where
  push_entry_set :
      (hash : Bytes) (pool : AttestationPool) (a : Attestation) (k : ℕ)
      → SameBits (length a.aggregation_bits) pool
      → get_elem? a.aggregation_bits k ≡ some true
      → push_entry C bls hash pool a ≡ ok (appended hash a pool)
  unfolding push_entry
  push_entry_set hash [] a k same set_bit = refl
  push_entry_set hash ((h, existings) ∷ pool) a k (all, same) set_bit =
      elim (Bool-cases (bytes_eq h hash)) [
        | inl here ↦ rw (here, push_into_set C bls existings a k all set_bit) refl
        | inr apart ↦ rw (apart, push_entry_set hash pool a k same set_bit) refl
      ]

  -- An attestation with a bit that is set is never aggregated, also where no attestation in the pool has
  -- that bit: it is added at the end of those of its root, where all have equally many bits.
  pub push_set :
      (a : Attestation) (pool : AttestationPool) (k : ℕ)
      → SameBits (length a.aggregation_bits) pool
      → get_elem? a.aggregation_bits k ≡ some true
      → push C bls a pool ≡ ok (appended (hash_of C bls a) a pool)
  unfolding push
  push_set a pool k same set_bit = push_entry_set (hash_of C bls a) pool a k same set_bit
