-- ===== src/Ghost/Heaviest.antt =====
-- The head (blockchain/lmd-ghost/src/archive.rs): from the justified block down, always to a child that
-- most validators vote for, until a block without children.
use mathlib.Core.List.{Memᴰ}
use shasper.Prelude.{
  ℕ, zero, suc, ◌≤◌, ◌<◌, ◌≡◌, subst, refl, sym, ap, ◌∙◌, ◌⊎◌, inl, inr, List, [], ◌∷◌, arith, ltb,
  Bytes, Bool-cases,
}
use shasper.Results.{Result, ok, ◌>>=◌}
use shasper.Ghost.{Backend, ArchiveGhost, vote_count, best_child, head_loop, head}
use shasper.Ghost.Ancestors.{IsTree}
use shasper.Ghost.Tally.{GhostKnown, latest, votes_for, vote_count-latest}

-- A walk down to a leaf along children of the greatest weight among their siblings.
pub data Heaviest (children : Bytes → List Bytes) (weight : Bytes → ℕ)
    : Bytes → Bytes → Type 0 where
  leaf : {b : Bytes} → children b ≡ [] → Heaviest children weight b b
  down :
      {b c h : Bytes}
      → Memᴰ c (children b)
      → ((sibling : Bytes) → Memᴰ sibling (children b) → weight sibling ≤ weight c)
      → Heaviest children weight c h
      → Heaviest children weight b h

-- The number of validators whose latest vote is for the block or below it.
abbrev pub weight_of : (Bytes → ℕ) → (Bytes → Bytes) → ArchiveGhost → Bytes → ℕ
weight_of depth parent g block = latest (votes_for depth parent block (depth block)) g

List-cases : (xs : List Bytes) → (xs ≡ []) ⊎ ((p : Bytes × List Bytes) × (xs ≡ p.0 ∷ p.1))
List-cases [] = inl refl
List-cases (x ∷ xs) = inr ((x, xs), refl)

-- What the loop over the children returns.
record Best (weight : Bytes → ℕ) (score : ℕ) (best : Bytes) (cs : List Bytes) (found : Bytes)
    : Type 0 where
  among : (found ≡ best) ⊎ Memᴰ found cs
  above : score ≤ weight found
  greatest : (c : Bytes) → Memᴰ c cs → weight c ≤ weight found

module _ (weight : Bytes → ℕ) where
  -- One more child in front, where it wins and where it loses.
  Best-wins :
      (score : ℕ) (best c found : Bytes) (cs : List Bytes)
      → score < weight c
      → Best weight (weight c) c cs found
      → Best weight score best (c ∷ cs) found
  Best-wins score best c found cs wins b = record {
    among = inr (elim b.among [ inl e ↦ Memᴰ.head e | inr m ↦ Memᴰ.tail m ]);
    above = omega (arith, b.above);
    greatest = λ c' m. elim m [
      | Memᴰ.head e ↦ subst (λ (x : Bytes). weight x ≤ weight found) (sym e) b.above
      | Memᴰ.tail m' ↦ b.greatest c' m'
    ];
  }

  Best-loses :
      (score : ℕ) (best c found : Bytes) (cs : List Bytes)
      → weight c ≤ score
      → Best weight score best cs found
      → Best weight score best (c ∷ cs) found
  Best-loses score best c found cs loses b = record {
    among = elim b.among [ inl e ↦ inl e | inr m ↦ inr (Memᴰ.tail m) ];
    above = b.above;
    greatest = λ c' m. elim m [
      | Memᴰ.head e ↦
          subst (λ (x : Bytes). weight x ≤ weight found) (sym e) (omega (arith, b.above))
      | Memᴰ.tail m' ↦ b.greatest c' m'
    ];
  }

  best_child-Best :
      {E : Type 0} (backend : Backend E) (g : ArchiveGhost) (d : ℕ) (cs : List Bytes) (best : Bytes)
      (score : ℕ)
      → ((c : Bytes) → Memᴰ c cs → vote_count backend g c d ≡ ok (weight c))
      → score ≤ weight best
      → (found : Bytes) × (best_child backend g d best score cs ≡ ok found)
        × Best weight score best cs found
  unfolding best_child
  best_child-Best backend g d [] best score counted h =
      (best, refl, record { among = inl refl; above = h; greatest = λ c m. elim m [ ] })
  best_child-Best backend g d (c ∷ cs) best score counted h =
      let later : (c' : Bytes) → Memᴰ c' cs → vote_count backend g c' d ≡ ok (weight c') =
        λ c' m. counted c' (Memᴰ.tail m) in
      let here = counted c (Memᴰ.head refl) in
      elim (Bool-cases (ltb score (weight c))) [
        | inl wins ↦
            let (found, e, b) = best_child-Best backend g d cs c (weight c) later (omega arith) in
            (found, rw (here, wins) e, Best-wins score best c found cs (ground arith) b)
        | inr loses ↦
            let (found, e, b) = best_child-Best backend g d cs best score later h in
            (found, rw (here, loses) e, Best-loses score best c found cs (ground arith) b)
      ]

head_loop_step :
    {E : Type 0} (backend : Backend E) (g : ArchiveGhost) (fuel : ℕ) (b : Bytes) (d : ℕ)
    (first : Bytes) (others : List Bytes) (best h : Bytes)
    → backend.children_at b ≡ ok (first ∷ others)
    → best_child backend g (suc d) first 0 (first ∷ others) ≡ ok best
    → head_loop backend g fuel best (suc d) ≡ ok h
    → head_loop backend g (suc fuel) b d ≡ ok h
unfolding head_loop
head_loop_step backend g fuel b d first others best h e chosen later = rw (e, chosen, later) refl

module _ {E : Type 0} (backend : Backend E) (Known : Bytes → Type 0) (depth height : Bytes → ℕ)
    (parent : Bytes → Bytes) (children : Bytes → List Bytes)
    (tree : IsTree backend Known depth height parent children) (g : ArchiveGhost)
    (known_votes : GhostKnown Known g) where
  counted :
      (b c : Bytes)
      → Known b
      → Memᴰ c (children b)
      → vote_count backend g c (suc (depth b)) ≡ ok (weight_of depth parent g c)
  counted b c known m =
      let (_, level, _) = tree.child_below b c known m in
      subst (λ (k : ℕ). vote_count backend g c k ≡ ok (weight_of depth parent g c)) level
        (vote_count-latest backend Known depth height parent children tree g c (depth c)
          known_votes)

  head_loop-Heaviest :
      (fuel : ℕ) (b : Bytes)
      → Known b
      → height b < fuel
      → (h : Bytes) × (head_loop backend g fuel b (depth b) ≡ ok h)
        × Heaviest children (weight_of depth parent g) b h
  unfolding head_loop
  head_loop-Heaviest zero b known enough = absurd (omega arith)
  head_loop-Heaviest (suc fuel) b known enough = elim (List-cases (children b)) [
    | inl none_left ↦ (b, rw (tree.children_known b known, none_left) refl, leaf none_left)
    | inr ((first, others), e) ↦
        let member : (c : Bytes) → Memᴰ c (first ∷ others) → Memᴰ c (children b) =
          λ c m. subst (λ (cs : List Bytes). Memᴰ c cs) (sym e) m in
        let (best, chosen, b') =
          best_child-Best (weight_of depth parent g) backend g (suc (depth b)) (first ∷ others)
            first 0 (λ c m. counted b c known (member c m)) (omega arith) in
        let among : Memᴰ best (children b) =
          member best (elim b'.among [ inl same ↦ Memᴰ.head same | inr m ↦ m ]) in
        let (known', level, lower) = tree.child_below b best known among in
        let (h, later, walk) = head_loop-Heaviest fuel best known' (omega arith) in
        let later' : head_loop backend g fuel best (suc (depth b)) ≡ ok h =
          subst (λ (d : ℕ). head_loop backend g fuel best d ≡ ok h) level later in
        let greatest : (sibling : Bytes)
            → Memᴰ sibling (children b)
            → weight_of depth parent g sibling ≤ weight_of depth parent g best =
          λ sibling m. b'.greatest sibling (subst (λ (cs : List Bytes). Memᴰ sibling cs) e m) in
        (
          h,
          head_loop_step backend g fuel b (depth b) first others best h
              (tree.children_known b known ∙ ap ok e) chosen later',
          down among greatest walk,
        )
  ]

  -- The choice of a head ends, and returns the end of a walk from the justified block along children that
  -- most of the latest votes are for, where the votes are for known blocks, the blocks are a tree, the
  -- justified block is known, and the fuel is more than the height above it.
  pub head-Heaviest :
      (fuel : ℕ) (justified : Bytes)
      → Known justified
      → height justified < fuel
      → (h : Bytes) × (head backend g fuel justified ≡ ok h)
        × Heaviest children (weight_of depth parent g) justified h
  unfolding head
  head-Heaviest fuel justified known enough =
      let (h, e, walk) = head_loop-Heaviest fuel justified known enough in
      (
        h,
        ap (λ (r : Result E ℕ). r >>= λ d. head_loop backend g fuel justified d)
              (tree.depth_known justified known)
            ∙ e,
        walk,
      )
