-- ===== src/Ghost/Ancestors.antt =====
-- `ancestor_at` (blockchain/lmd-ghost/src/archive.rs) over a store that holds a tree of blocks.
use mathlib.Core.List.{Memᴰ}
use shasper.Prelude.{
  Bool-cases, inl, inr, ℕ, zero, suc, ◌-◌, ◌≤◌, ◌<◌, ◌≡◌, refl, ap, ◌∙◌, min, Bool, List, some,
  arith, ltb, Bytes, bytes_eq,
}
use shasper.Results.{Result, ok, ◌>>=◌}
use shasper.Ghost.{Backend, ancestor_loop, ancestor_at, supports}

-- The blocks of a store are a tree: each known block but those at depth 0 has a known parent one level
-- up, its children are known and one level down, and no path from it is longer than its height.
pub record IsTree {E : Type 0} (backend : Backend E) (Known : Bytes → Type 0)
    (depth height : Bytes → ℕ) (parent : Bytes → Bytes) (children : Bytes → List Bytes)
    : Type 0 where
  pub depth_known : (b : Bytes) → Known b → backend.depth_at b ≡ ok (depth b)
  pub parent_known :
      (b : Bytes) → Known b → 0 < depth b → backend.parent_at b ≡ ok (some (parent b))
  pub parent_above :
      (b : Bytes) → Known b → 0 < depth b → Known (parent b) × (depth b ≡ suc (depth (parent b)))
  pub children_known : (b : Bytes) → Known b → backend.children_at b ≡ ok (children b)
  pub child_below :
      (b c : Bytes)
      → Known b
      → Memᴰ c (children b)
      → Known c × (depth c ≡ suc (depth b)) × (height c < height b)

-- So many steps up.
abbrev pub climb : (Bytes → Bytes) → ℕ → Bytes → Bytes
climb parent zero b = b
climb parent (suc n) b = climb parent n (parent b)

-- Whether the block `target` stands below `block`, or is it, where `block` has the depth `d`.
abbrev pub below : (Bytes → ℕ) → (Bytes → Bytes) → Bytes → Bytes → ℕ → Bool
below depth parent target block d = bytes_eq (climb parent (depth target - d) target) block

module _ {E : Type 0} (backend : Backend E) (Known : Bytes → Type 0) (depth height : Bytes → ℕ)
    (parent : Bytes → Bytes) (children : Bytes → List Bytes)
    (tree : IsTree backend Known depth height parent children) where
  ancestor_loop-climb :
      (fuel : ℕ) (b : Bytes) (d : ℕ)
      → Known b
      → depth b < fuel
      → ancestor_loop backend fuel b d ≡ ok (climb parent (depth b - d) b)
  unfolding ancestor_loop
  ancestor_loop-climb zero b d known enough = absurd (omega arith)
  ancestor_loop-climb (suc fuel) b d known enough = elim (Bool-cases (ltb d (depth b))) [
    | inl deeper ↦
        let some_depth : 0 < depth b = ground arith in
        let (known', up) = tree.parent_above b known some_depth in
        let steps : depth b - d ≡ suc (depth (parent b) - d) = ground arith in
        let later = ancestor_loop-climb fuel (parent b) d known' (omega arith) in
        rw (tree.depth_known b known, deeper, tree.parent_known b known some_depth, later, steps)
          refl
    | inr shallow ↦
        let steps : depth b - d ≡ 0 = ground arith in
        rw (tree.depth_known b known, shallow, steps) refl
  ]

  depth-climb :
      (n : ℕ) (b : Bytes)
      → Known b
      → n ≤ depth b
      → Known (climb parent n b) × (depth (climb parent n b) ≡ depth b - n)
  depth-climb zero b known h = (known, omega arith)
  depth-climb (suc n) b known h =
      let (known', up) = tree.parent_above b known (omega arith) in
      let (known'', e) = depth-climb n (parent b) known' (omega arith) in (known'', e ∙ omega arith)

  -- Where the known blocks are a tree and the block is one, `ancestor_at` ends, and returns the block that stands above the given one at the given depth, which
  -- is the given block itself where that is not below it.
  pub ancestor_at-climb :
      (b : Bytes) (d : ℕ)
      → Known b
      → (ancestor_at backend b d ≡ ok (climb parent (depth b - d) b))
        × Known (climb parent (depth b - d) b)
        × (depth (climb parent (depth b - d) b) ≡ min d (depth b))
  unfolding ancestor_at
  ancestor_at-climb b d known =
      let (known', e) = depth-climb (depth b - d) b known (omega arith) in
      (
        ap (λ (r : Result E ℕ). r >>= λ k. ancestor_loop backend (suc k) b d)
              (tree.depth_known b known)
            ∙ ancestor_loop-climb (suc (depth b)) b d known (omega arith),
        known',
        e ∙ omega arith,
      )

  pub supports_lem :
      (target block : Bytes) (d : ℕ)
      → Known target
      → supports backend target block d ≡ ok (below depth parent target block d)
  unfolding supports
  supports_lem target block d known = rw ((ancestor_at-climb target d known).0) refl
