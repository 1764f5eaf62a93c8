-- ===== src/Ghost/Overlay.antt =====
-- The overlay of votes (blockchain/lmd-ghost/src/archive.rs) is a view of the votes that a commit makes
-- real.
use shasper.Prelude.{
  ℕ, ◌+◌, ◌≡◌, refl, sym, ap, ◌∙◌, Bool, true, false, List, [], ◌∷◌, arith, if◌then◌else◌, ◌==◌,
  Bytes, Bool-cases, inl, inr,
}
use shasper.Results.{ok}
use shasper.Ghost.{
  Votes, Backend, ArchiveGhost, insert, insert_all, has_key, vote_count, update_overlay,
  commit_overlay, new,
}
use shasper.Ghost.Ancestors.{IsTree}
use shasper.Ghost.Tally.{
  AllKnown, GhostKnown, tally, tally_outside, latest, votes_for, vote_count-latest,
}

-- No validator has two votes, as the keys of a map.
abbrev pub UniqueKeys : Votes → Type 0
UniqueKeys [] = Unit
UniqueKeys ((v, target) ∷ votes) = (has_key v votes ≡ false) × UniqueKeys votes

pub has_key-insert :
    (v w : ℕ) (target : Bytes) (votes : Votes)
    → has_key w (insert v target votes) ≡ (if v == w then true else has_key w votes)
unfolding has_key insert
has_key-insert v w target [] = refl
has_key-insert v w target ((u, other) ∷ votes) = ground (arith, has_key-insert v w target votes)

pub insert-UniqueKeys :
    (v : ℕ) (target : Bytes) (votes : Votes) → UniqueKeys votes → UniqueKeys (insert v target votes)
unfolding insert
insert-UniqueKeys v target [] unique = (unfold has_key in refl, tt)
insert-UniqueKeys v target ((u, other) ∷ votes) (fresh, unique) =
    ground (arith, insert-UniqueKeys v target votes unique, has_key-insert v u target votes)

insert-AllKnown :
    (Known : Bytes → Type 0) (v : ℕ) (target : Bytes) (votes : Votes)
    → Known target
    → AllKnown Known votes
    → AllKnown Known (insert v target votes)
unfolding insert
insert-AllKnown Known v target [] k known = (k, tt)
insert-AllKnown Known v target ((u, other) ∷ votes) k (k', known) = elim (Bool-cases (u == v)) [
  | inl same ↦ rw same (k, known)
  | inr apart ↦ rw apart (k', insert-AllKnown Known v target votes k known)
]

-- A validator without a vote changes nothing outside.
tally_outside-fresh :
    (v : ℕ) (target : Bytes) (overlay votes : Votes) (p : Bytes → Bool)
    → has_key v votes ≡ false
    → tally_outside ((v, target) ∷ overlay) p votes ≡ tally_outside overlay p votes
unfolding has_key
tally_outside-fresh v target overlay [] p fresh = refl
tally_outside-fresh v target overlay ((u, other) ∷ votes) p fresh =
    ground (arith, tally_outside-fresh v target overlay votes p)

tally_outside-insert :
    (v : ℕ) (target : Bytes) (overlay votes : Votes) (p : Bytes → Bool)
    → has_key v overlay ≡ false
    → UniqueKeys votes
    → tally_outside overlay p (insert v target votes)
      ≡ (if p target then 1 else 0) + tally_outside ((v, target) ∷ overlay) p votes
unfolding insert has_key
tally_outside-insert v target overlay [] p outside unique = ground arith
tally_outside-insert v target overlay ((u, other) ∷ votes) p outside (fresh, unique) =
    elim (Bool-cases (u == v)) [
      | inl same ↦
          let e : u ≡ v = ground arith in
          let fresh' : has_key v votes ≡ false = ap (λ (k : ℕ). has_key k votes) (sym e) ∙ fresh in
          ground (arith, tally_outside-fresh v target overlay votes p fresh')
      | inr apart ↦ ground (arith, tally_outside-insert v target overlay votes p outside unique)
    ]

tally-insert_all :
    (overlay votes : Votes) (p : Bytes → Bool)
    → UniqueKeys overlay
    → UniqueKeys votes
    → tally_outside [] p (insert_all overlay votes)
      ≡ tally p overlay + tally_outside overlay p votes
unfolding insert_all
tally-insert_all [] votes p unique unique' = omega arith
tally-insert_all ((v, target) ∷ overlay) votes p (fresh, unique) unique' =
    tally-insert_all overlay (insert v target votes) p unique
      (insert-UniqueKeys v target votes unique')
    ∙ ap (λ (n : ℕ). tally p overlay + n)
        (tally_outside-insert v target overlay votes p fresh unique')
    ∙ omega arith

insert_all-AllKnown :
    (Known : Bytes → Type 0) (overlay votes : Votes)
    → AllKnown Known overlay
    → AllKnown Known votes
    → AllKnown Known (insert_all overlay votes)
unfolding insert_all
insert_all-AllKnown Known [] votes known known' = known'
insert_all-AllKnown Known ((v, target) ∷ overlay) votes (k, known) known' =
    insert_all-AllKnown Known overlay (insert v target votes) known
      (insert-AllKnown Known v target votes k known')

-- Both maps have unique keys: so it is at first, and after each vote.
abbrev pub IsMap : ArchiveGhost → Type 0
IsMap g = UniqueKeys g.votes × UniqueKeys g.overlayed_votes

new-IsMap : IsMap new
unfolding new
new-IsMap = (tt, tt)

update_overlay-IsMap :
    (v : ℕ) (target : Bytes) (g : ArchiveGhost) → IsMap g → IsMap (update_overlay v target g)
unfolding update_overlay
update_overlay-IsMap v target g (unique, unique') =
    (unique, insert-UniqueKeys v target g.overlayed_votes unique')

module _ {E : Type 0} (backend : Backend E) (Known : Bytes → Type 0) (depth height : Bytes → ℕ)
    (parent : Bytes → Bytes) (children : Bytes → List Bytes)
    (tree : IsTree backend Known depth height parent children) where
  -- Every count is the same before and after the overlay is committed, where the votes are for known
  -- blocks of a tree and no validator has two.
  pub vote_count-commit_overlay :
      (g : ArchiveGhost) (block : Bytes) (d : ℕ)
      → IsMap g
      → GhostKnown Known g
      → vote_count backend (commit_overlay g) block d ≡ vote_count backend g block d
  unfolding commit_overlay
  vote_count-commit_overlay g block d (unique, unique') (known, known') =
      let count : (h : ArchiveGhost)
          → GhostKnown Known h
          → vote_count backend h block d ≡ ok (latest (votes_for depth parent block d) h) =
        λ h. vote_count-latest backend Known depth height parent children tree h block d in
      let same =
        tally-insert_all g.overlayed_votes g.votes (votes_for depth parent block d) unique'
          unique in
      count (commit_overlay g)
        (insert_all-AllKnown Known g.overlayed_votes g.votes known' known, tt)
      ∙ ap ok (omega (arith, same))
      ∙ sym (count g (known, known'))
