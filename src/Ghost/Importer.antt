-- ===== src/Ghost/Importer.antt =====
-- The importer of blocks (blockchain/lmd-ghost/src/archive.rs): it commits a block, takes its votes, and
-- chooses and commits a head. The store, its commits and the executor are parameters.
use shasper.Prelude.{ℕ, List, [], ◌∷◌, Option, none, some, Bytes}
use shasper.Results.{Result, ok, err, panic, diverge, ◌>>=◌}
use shasper.Ghost.{
  Votes, Backend, ArchiveGhost, update_overlay, commit_overlay, reset_overlay, update_active, head,
}

pub data ImportError (E : Type 0) : Type 0 where
  is_genesis : ImportError E
  backend_error : E → ImportError E
  executor_error : E → ImportError E

-- A store `D` of blocks `B` with their states `S`.
pub record Store (E D B S : Type 0) : Type 0 where
  pub queries : D → Backend E
  pub genesis : D → Bytes
  pub height : D → ℕ
  pub parent_id : B → Option Bytes
  pub state_at : D → Bytes → Result E S
  pub commit_block : D → B → S → Result E D
  pub commit_head : D → Bytes → Result E D

pub record Executor (E B S : Type 0) : Type 0 where
  pub execute_block : B → S → Result E S
  pub justified_active_validators : S → Result E (List ℕ)
  pub justified_block_id : S → Result E (Option Bytes)
  pub votes : B → S → Result E Votes

pub record ArchiveGhostImporter (D : Type 0) : Type 0 where
  pub backend : D
  pub ghost : ArchiveGhost

-- `.map_err(wrap)`
abbrev pub map_err : {E F A : Type 0} → (E → F) → Result E A → Result F A
map_err wrap (ok a) = ok a
map_err wrap (err e) = err (wrap e)
map_err wrap panic = panic
map_err wrap diverge = diverge

-- The loop over the votes of the block.
unfoldable pub update_overlays : Votes → ArchiveGhost → ArchiveGhost
unfolding update_overlay
update_overlays [] g = g
update_overlays ((v, target) ∷ votes) g = update_overlays votes (update_overlay v target g)

module _ {E D B S : Type 0} (store : Store E D B S) (executor : Executor E B S) where
  -- How an import ends, and the importer that it leaves.
  abbrev pub Import : Type 0
  Import = Result (ImportError E) (Unit {0}) × ArchiveGhostImporter D

  -- The commit of the new head; where it fails the votes are dropped and the import goes on.
  unfoldable pub commit_new_head : D → ArchiveGhost → Bytes → Import
  unfolding commit_overlay reset_overlay
  commit_new_head d g new_head = elim (store.commit_head d new_head) [
    | ok d' ↦ (ok tt, record { backend = d'; ghost = commit_overlay g })
    | err e ↦ (ok tt, record { backend = d; ghost = reset_overlay g })
    | panic ↦ (panic, record { backend = d; ghost = g })
    | diverge ↦ (diverge, record { backend = d; ghost = g })
  ]

  -- What follows the commit of the block.
  unfoldable pub choose_head : D → ArchiveGhost → Bytes → Import
  unfolding head commit_new_head reset_overlay
  choose_head d g justified = elim (head (store.queries d) g (store.height d) justified) [
    | ok new_head ↦ commit_new_head d g new_head
    | err e ↦ (err (backend_error e), record { backend = d; ghost = reset_overlay g })
    | panic ↦ (panic, record { backend = d; ghost = g })
    | diverge ↦ (diverge, record { backend = d; ghost = g })
  ]

  -- What the executor says, and the store after the commit of the block.
  unfoldable pub commit_import : B → S → D → Result (ImportError E) (D × List ℕ × Bytes × Votes)
  commit_import block state d = do
    active ← map_err executor_error (executor.justified_active_validators state)
    justified ← map_err executor_error (executor.justified_block_id state)
    votes ← map_err executor_error (executor.votes block state)
    d' ← map_err backend_error (store.commit_block d block state)
    ok (d', active, elim justified [ none ↦ store.genesis d | some id ↦ id ], votes)

  -- What the executor and the commit of the block said: the validators, the justified block, the votes.
  abbrev pub Committed : Type 0
  Committed = Result (ImportError E) (D × List ℕ × Bytes × Votes)

  -- What follows, where the executor and the commit of the block succeed.
  unfoldable pub after_commit : ArchiveGhostImporter D → Committed → Import
  unfolding choose_head update_overlays update_active
  after_commit i (ok (d, active, justified, votes)) =
      choose_head d (update_active active (update_overlays votes i.ghost)) justified
  after_commit i (err e) = (err e, i)
  after_commit i panic = (panic, i)
  after_commit i diverge = (diverge, i)

  unfoldable pub import_raw : B → S → ArchiveGhostImporter D → Import
  unfolding commit_import after_commit
  import_raw block state i = after_commit i (commit_import block state i.backend)

  -- The state after the block, from that of its parent.
  unfoldable pub execute : B → D → Result (ImportError E) S
  execute block d = elim (store.parent_id block) [
    | none ↦ err is_genesis
    | some parent ↦ (do
      state ← map_err backend_error (store.state_at d parent)
      map_err executor_error (executor.execute_block block state))
  ]

  unfoldable pub import_block : B → ArchiveGhostImporter D → Import
  unfolding execute import_raw
  import_block block i = elim (execute block i.backend) [
    | ok state ↦ import_raw block state i
    | err e ↦ (err e, i)
    | panic ↦ (panic, i)
    | diverge ↦ (diverge, i)
  ]
