-- ===== src/Ghost.antt =====
-- blockchain/lmd-ghost/src/archive.rs: the votes of the validators and the choice of a head by them.
-- The store of blocks is a parameter. A count of votes is at most the size of a map, so it never wraps.
pub mod Importer
pub mod Ancestors
pub mod Tally
pub mod Heaviest
pub mod Overlay
pub mod Imports
use shasper.Prelude.{
  ◌≡◌, ℕ, zero, suc, ◌+◌, ◌<◌, Bool, true, false, not, ◌&&◌, List, [], ◌∷◌, Option, none, some,
  if◌then◌else◌, ◌==◌, ltb, keep, contains, Bytes, bytes_eq,
}
use shasper.Results.{Result, ok, panic, diverge, ◌>>=◌}

-- A map from validators to blocks.
abbrev pub Votes : Type 0
Votes = List (ℕ × Bytes)

-- `insert`
unfoldable pub insert : ℕ → Bytes → Votes → Votes
insert v target [] = (v, target) ∷ []
insert v target ((w, other) ∷ votes) =
    if w == v then (v, target) ∷ votes else (w, other) ∷ insert v target votes

-- `keys().any(|k| k == v)`
unfoldable pub has_key : ℕ → Votes → Bool
has_key v [] = false
has_key v ((w, target) ∷ votes) = if w == v then true else has_key v votes

-- What the archive asks the store of blocks, with the errors `E` of the store: `parent_at` is
-- `block_at(id)?.parent_id()`.
pub record Backend (E : Type 0) : Type 0 where
  pub depth_at : Bytes → Result E ℕ
  pub parent_at : Bytes → Result E (Option Bytes)
  pub children_at : Bytes → Result E (List Bytes)

pub record ArchiveGhost : Type 0 where
  pub votes : Votes
  pub overlayed_votes : Votes

unfoldable pub new : ArchiveGhost
new = record { votes = []; overlayed_votes = [] }

unfoldable pub update_overlay : ℕ → Bytes → ArchiveGhost → ArchiveGhost
unfolding insert
update_overlay v target g = record g { overlayed_votes = insert v target g.overlayed_votes }

-- The loop that moves the overlay to the votes.
unfoldable pub insert_all : Votes → Votes → Votes
unfolding insert
insert_all [] votes = votes
insert_all ((v, target) ∷ overlay) votes = insert_all overlay (insert v target votes)

unfoldable pub commit_overlay : ArchiveGhost → ArchiveGhost
unfolding insert_all
commit_overlay g = record { votes = insert_all g.overlayed_votes g.votes; overlayed_votes = [] }

unfoldable pub reset_overlay : ArchiveGhost → ArchiveGhost
reset_overlay g = record g { overlayed_votes = [] }

unfoldable pub update_active : List ℕ → ArchiveGhost → ArchiveGhost
update_active active g = record g { votes = keep (λ (v, target). contains active v) g.votes }

module _ {E : Type 0} (backend : Backend E) where
  -- The loop of `ancestor_at`; a block below the depth that has no parent panics.
  unfoldable pub ancestor_loop : ℕ → Bytes → ℕ → Result E Bytes
  ancestor_loop zero current depth = diverge
  ancestor_loop (suc fuel) current depth =
      let rest : Bytes → Result E Bytes = λ parent. ancestor_loop fuel parent depth in
      backend.depth_at current >>= λ current_depth.
      if ltb depth current_depth
      then (backend.parent_at current >>= λ parent. elim parent [ none ↦ panic | some p ↦ rest p ])
      else ok current

  -- The fuel is the depth of the block, and one more round.
  unfoldable pub ancestor_at : Bytes → ℕ → Result E Bytes
  unfolding ancestor_loop
  ancestor_at id depth = backend.depth_at id >>= λ d. ancestor_loop (suc d) id depth

  -- `ancestor_at(target, depth)? == block`
  unfoldable pub supports : Bytes → Bytes → ℕ → Result E Bool
  unfolding ancestor_at
  supports target block depth = ancestor_at target depth >>= λ a. ok (bytes_eq a block)

  -- The loop over the overlay.
  unfoldable pub count_overlay : Bytes → ℕ → ℕ → Votes → Result E ℕ
  unfolding supports
  count_overlay block depth total [] = ok total
  count_overlay block depth total ((v, target) ∷ votes) = supports target block depth >>= λ s.
      count_overlay block depth (if s then suc total else total) votes

  -- The loop over the votes, where those of the overlay go first.
  unfoldable pub count_votes : Votes → Bytes → ℕ → ℕ → Votes → Result E ℕ
  unfolding supports has_key
  count_votes overlay block depth total [] = ok total
  count_votes overlay block depth total ((v, target) ∷ votes) =
      if has_key v overlay
      then count_votes overlay block depth total votes
      else (supports target block depth >>= λ s.
          count_votes overlay block depth (if s then suc total else total) votes)

  unfoldable pub vote_count : ArchiveGhost → Bytes → ℕ → Result E ℕ
  unfolding count_overlay count_votes
  vote_count g block depth = count_overlay block depth 0 g.overlayed_votes >>= λ total.
      count_votes g.overlayed_votes block depth total g.votes

  -- The loop over the children: a child wins with more votes than the best before it.
  unfoldable pub best_child : ArchiveGhost → ℕ → Bytes → ℕ → List Bytes → Result E Bytes
  unfolding vote_count
  best_child g depth best score [] = ok best
  best_child g depth best score (child ∷ children) = vote_count g child depth >>= λ count.
      best_child g depth (if ltb score count then child else best)
        (if ltb score count then count else score) children

  -- The loop of `head`, on fuel: the height of the tree above the block is enough.
  unfoldable pub head_loop : ArchiveGhost → ℕ → Bytes → ℕ → Result E Bytes
  unfolding best_child
  head_loop g zero block depth = diverge
  head_loop g (suc fuel) block depth =
      let rest : Bytes → Result E Bytes = λ best. head_loop g fuel best (suc depth) in
      backend.children_at block >>= λ children. elim children [
        | [] ↦ ok block
        | first ∷ others ↦ best_child g (suc depth) first 0 (first ∷ others) >>= rest
      ]

  unfoldable pub head : ArchiveGhost → ℕ → Bytes → Result E Bytes
  unfolding head_loop
  head g fuel justified = backend.depth_at justified >>= λ depth. head_loop g fuel justified depth
