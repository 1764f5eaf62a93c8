-- ===== src/Ghost/Tally.antt =====
-- The votes that `vote_count` (blockchain/lmd-ghost/src/archive.rs) counts, as a number.
use shasper.Prelude.{
  ℕ, suc, ◌+◌, ◌≡◌, ap, ◌∙◌, Bool, List, [], ◌∷◌, arith, if◌then◌else◌, Bytes, Bool-cases, inl, inr,
}
use shasper.Results.{ok}
use shasper.Ghost.{Votes, Backend, ArchiveGhost, has_key, count_overlay, count_votes, vote_count}
use shasper.Ghost.Ancestors.{IsTree, below, supports_lem}

-- The target of each vote is known.
abbrev pub AllKnown : (Bytes → Type 0) → Votes → Type 0
AllKnown Known [] = Unit
AllKnown Known ((v, target) ∷ votes) = Known target × AllKnown Known votes

-- The votes for targets that meet a test, all of them and those of validators not in the overlay.
abbrev pub tally : (Bytes → Bool) → Votes → ℕ
tally p [] = 0
tally p ((v, target) ∷ votes) = (if p target then 1 else 0) + tally p votes

abbrev pub tally_outside : Votes → (Bytes → Bool) → Votes → ℕ
tally_outside overlay p [] = 0
tally_outside overlay p ((v, target) ∷ votes) =
    (if has_key v overlay then 0 else (if p target then 1 else 0)) + tally_outside overlay p votes

-- The latest votes: those of the overlay, and those of the other validators.
abbrev pub latest : (Bytes → Bool) → ArchiveGhost → ℕ
latest p g = tally p g.overlayed_votes + tally_outside g.overlayed_votes p g.votes

abbrev pub GhostKnown : (Bytes → Type 0) → ArchiveGhost → Type 0
GhostKnown Known g = AllKnown Known g.votes × AllKnown Known g.overlayed_votes

-- Whether a vote is for `block` or a block below it.
abbrev pub votes_for : (Bytes → ℕ) → (Bytes → Bytes) → Bytes → ℕ → Bytes → Bool
votes_for depth parent block d target = below depth parent target block d

module _ {E : Type 0} (backend : Backend E) (Known : Bytes → Type 0) (depth height : Bytes → ℕ)
    (parent : Bytes → Bytes) (children : Bytes → List Bytes)
    (tree : IsTree backend Known depth height parent children) where
  count_overlay-tally :
      (block : Bytes) (d total : ℕ) (votes : Votes)
      → AllKnown Known votes
      → count_overlay backend block d total votes
        ≡ ok (total + tally (votes_for depth parent block d) votes)
  unfolding count_overlay
  count_overlay-tally block d total [] known = ap ok (omega arith)
  count_overlay-tally block d total ((v, target) ∷ votes) (k, known) =
      rw (supports_lem backend Known depth height parent children tree target block d k) (
        count_overlay-tally block d
          (if votes_for depth parent block d target then suc total else total) votes known
        ∙ ap ok (ground arith))

  count_votes-tally :
      (overlay : Votes) (block : Bytes) (d total : ℕ) (votes : Votes)
      → AllKnown Known votes
      → count_votes backend overlay block d total votes
        ≡ ok (total + tally_outside overlay (votes_for depth parent block d) votes)
  unfolding count_votes
  count_votes-tally overlay block d total [] known = ap ok (omega arith)
  count_votes-tally overlay block d total ((v, target) ∷ votes) (k, known) =
      elim (Bool-cases (has_key v overlay)) [
        | inl present ↦
            rw present (count_votes-tally overlay block d total votes known ∙ ap ok (omega arith))
        | inr absent ↦
            rw
              (
                absent,
                supports_lem backend Known depth height parent children tree target block d k,
              )
              (count_votes-tally overlay block d
                  (if votes_for depth parent block d target then suc total else total) votes known
                ∙ ap ok (ground arith))
      ]

  -- The count of a block is the number of validators whose latest vote is for it or for a block below.
  pub vote_count-latest :
      (g : ArchiveGhost) (block : Bytes) (d : ℕ)
      → GhostKnown Known g
      → vote_count backend g block d ≡ ok (latest (votes_for depth parent block d) g)
  unfolding vote_count
  vote_count-latest g block d (known, known') =
      rw (count_overlay-tally block d 0 g.overlayed_votes known') (
        count_votes-tally g.overlayed_votes block d
          (0 + tally (votes_for depth parent block d) g.overlayed_votes) g.votes known
        ∙ ap ok (omega arith))
