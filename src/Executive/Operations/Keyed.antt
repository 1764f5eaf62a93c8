-- ===== src/Executive/Operations/Keyed.antt =====
-- The search of a key in the registry, for the deposits of
-- beacon/src/executive/transition/per_block/operations/deposit.rs.
use shasper.Prelude.{
  ℕ, zero, suc, ◌+◌, ◌<◌, ◌≡◌, ◌≢◌, refl, ap, ◌∙◌, subst, false, Bool-cases, inl, inr, get_elem?,
  some, none, Option, List, [], ◌∷◌, Bytes, bytes_eq, bytes_eq_iff, arith,
}
use shasper.Types.{Validator}
use shasper.Executive.Operations.Registry.{find_pubkey}

-- No validator has the key.
abbrev pub Unknown : Bytes → List Validator → Type 0
Unknown key vs = (k : ℕ) (v : Validator) → get_elem? vs k ≡ some v → v.pubkey ≢ key

-- The validator at an index is the first that has the key.
pub record IsFirst (key : Bytes) (vs : List Validator) (i : ℕ) : Type 0 where
  pub holder : Validator
  pub there : get_elem? vs i ≡ some holder
  pub has : holder.pubkey ≡ key
  pub none_before : (k : ℕ) (v : Validator) → k < i → get_elem? vs k ≡ some v → v.pubkey ≢ key

-- What a search of a key, from an index on, finds.
pub data Found (key : Bytes) (start : ℕ) (vs : List Validator) : Option ℕ → Type 0 where
  nowhere : Unknown key vs → Found key start vs none
  found : (i : ℕ) → IsFirst key vs i → Found key start vs (some (start + i))

some_eq : {A : Type 0} {a b : A} → some a ≡ some b → a ≡ b
some_eq e = cc

not_here : (key : Bytes) (v w : Validator) → bytes_eq v.pubkey key ≡ false → v ≡ w → w.pubkey ≢ key
not_here key v w other e h =
    let same = (bytes_eq_iff v.pubkey key).1 (ap (λ (x : Validator). x.pubkey) e ∙ h) in absurd (cc)

-- One more validator in front, which does not have the key.
Found-later :
    (key : Bytes) (start : ℕ) (v : Validator) (vs : List Validator) (r : Option ℕ)
    → bytes_eq v.pubkey key ≡ false
    → Found key (suc start) vs r
    → Found key start (v ∷ vs) r
Found-later key start v vs none other (nowhere h) = nowhere missing
  where
    missing : Unknown key (v ∷ vs)
    missing zero w e = not_here key v w other (some_eq e)
    missing (suc k) w e = h k w e
Found-later key start v vs _ other (found i h) =
    subst (λ (n : ℕ). Found key start (v ∷ vs) (some n)) (omega arith)
      (found (suc i)
        (record { holder = h.holder; there = h.there; has = h.has; none_before = before }))
  where
    before : (k : ℕ) (w : Validator) → k < suc i → get_elem? (v ∷ vs) k ≡ some w → w.pubkey ≢ key
    before zero w lt e = not_here key v w other (some_eq e)
    before (suc k) w lt e = h.none_before k w (omega arith) e

pub find_pubkey-Found :
    (key : Bytes) (start : ℕ) (vs : List Validator) → Found key start vs (find_pubkey key start vs)
unfolding find_pubkey
find_pubkey-Found key start [] = nowhere (λ k v e. absurd (cc))
find_pubkey-Found key start (v ∷ vs) = elim (Bool-cases (bytes_eq v.pubkey key)) [
  | inl same ↦ rw same (
      subst (λ (n : ℕ). Found key start (v ∷ vs) (some n)) (omega arith)
        (found 0 (record {
          holder = v;
          there = refl;
          has = (bytes_eq_iff v.pubkey key).0 same;
          none_before = λ k w lt e. absurd (omega arith);
        })))
  | inr other ↦ rw other (Found-later key start v vs _ other (find_pubkey-Found key (suc start) vs))
]

pub Found-none :
    (key : Bytes) (vs : List Validator) (r : Option ℕ)
    → Found key 0 vs r
    → Unknown key vs
    → r ≡ none
Found-none key vs none (nowhere h) unknown = refl
Found-none key vs _ (found i h) unknown = absurd (unknown i h.holder h.there h.has)

pub Found-some :
    (key : Bytes) (vs : List Validator) (r : Option ℕ) (i : ℕ)
    → Found key 0 vs r
    → IsFirst key vs i
    → r ≡ some i
Found-some key vs none i (nowhere h) first = absurd (h i first.holder first.there first.has)
Found-some key vs _ i (found j h) first =
    let no_1 : ¬ (j < i) = λ lt. first.none_before j h.holder lt h.there h.has in
    let no_2 : ¬ (i < j) = λ lt. h.none_before i first.holder lt first.there first.has in
    ap some (omega arith)
