-- ===== src/Ghost/Imports.antt =====
-- What an import (blockchain/lmd-ghost/src/archive.rs) leaves of the votes.
use shasper.Prelude.{ℕ, ◌≡◌, ◌⊎◌, List, [], Bytes, keep, contains}
use shasper.Results.{Result, ok, err, panic, diverge}
use shasper.Ghost.{Votes, ArchiveGhost, insert_all, head}
use shasper.Ghost.Importer.{
  Import, backend_error, Store, Executor, ArchiveGhostImporter, update_overlays,
}

-- The votes of a block as an overlay, where the last vote of a validator counts.
unfoldable pub overlay_of : Votes → Votes
unfolding update_overlays
overlay_of votes =
    (update_overlays votes (record { votes = []; overlayed_votes = [] })).overlayed_votes

-- The votes of the validators that are active, and with them those of the block, of which the last of each
-- validator counts.
abbrev pub dropped : List ℕ → ArchiveGhost → ArchiveGhost
dropped active g = record {
  votes = keep (λ (v, target). contains active v) g.votes;
  overlayed_votes = [];
}

abbrev pub voting : List ℕ → Votes → ArchiveGhost → ArchiveGhost
voting active votes g = record {
  votes = keep (λ (v, target). contains active v) g.votes;
  overlayed_votes = overlay_of votes;
}

abbrev pub taken : List ℕ → Votes → ArchiveGhost → ArchiveGhost
taken active votes g = record {
  votes = insert_all (overlay_of votes) (keep (λ (v, target). contains active v) g.votes);
  overlayed_votes = [];
}

-- A call that does not return.
abbrev pub Stops {ℓ} : {E : Type 0} {A : Type ℓ} → Result E A → Type ℓ
Stops r = (r ≡ panic) ⊎ (r ≡ diverge)

module _ {E D B S : Type 0} (store : Store E D B S) (executor : Executor E B S) where
  -- How an import ends, and the importer that it leaves, by what the commit of the block, the choice of a
  -- head for the votes with those of the block, and the commit of that head did.
  pub data Settled (i : ArchiveGhostImporter D) (active : List ℕ) (justified : Bytes)
      (votes : Votes) (commit : Result E D) : Import store executor → Type 0 where
    refused :
        (e : E)
        → commit ≡ err e
        → Settled i active justified votes commit (err (backend_error e), i)
    headless :
        (d : D) (e : E)
        → commit ≡ ok d
        → head (store.queries d) (voting active votes i.ghost) (store.height d) justified ≡ err e
        → Settled i active justified votes commit
            (err (backend_error e), record { backend = d; ghost = dropped active i.ghost })
    head_refused :
        (d : D) (h : Bytes) (e : E)
        → commit ≡ ok d
        → head (store.queries d) (voting active votes i.ghost) (store.height d) justified ≡ ok h
        → store.commit_head d h ≡ err e
        → Settled i active justified votes commit
            (ok tt, record { backend = d; ghost = dropped active i.ghost })
    committed :
        (d d' : D) (h : Bytes)
        → commit ≡ ok d
        → head (store.queries d) (voting active votes i.ghost) (store.height d) justified ≡ ok h
        → store.commit_head d h ≡ ok d'
        → Settled i active justified votes commit
            (ok tt, record { backend = d'; ghost = taken active votes i.ghost })
    block_stopped :
        (import : Import store executor)
        → Stops commit
        → Stops import.0
        → Settled i active justified votes commit import
    head_stopped :
        (d : D) (import : Import store executor)
        → commit ≡ ok d
        → Stops (head (store.queries d) (voting active votes i.ghost) (store.height d) justified)
        → Stops import.0
        → Settled i active justified votes commit import
    commit_stopped :
        (d : D) (h : Bytes) (import : Import store executor)
        → commit ≡ ok d
        → head (store.queries d) (voting active votes i.ghost) (store.height d) justified ≡ ok h
        → Stops (store.commit_head d h)
        → Stops import.0
        → Settled i active justified votes commit import
