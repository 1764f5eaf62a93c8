-- ===== src/Chain/Linked.antt =====
-- What a state that has executed a block says of its parent (beacon/src/lib.rs and
-- blockchain/runtime/src/lib.rs).
use shasper.Prelude.{
  ◌≡◌, ◌∙◌, sym, ap, subst, Bool, true, false, Bytes, bytes_eq, bytes_eq_iff, bytes_eq_refl,
  if◌then◌else◌, replicate,
}
use shasper.Types.{
  BeaconState, BeaconBlock, Block, BeaconBlockHeader, PendingAttestation, zero_hash, signing_header,
  sealed_block,
}
use shasper.Outcome.{ok}
use shasper.Config.{Config, BlsConfig}
use shasper.Executive.Keeps.{bind-Keeps}
use shasper.Executive.Runs.{runs_bind, runs_require, runs_check, runs_get, runs_read, runs_step}
use shasper.Executive.Header.{process_block_header, set_latest_header, add_eth1_vote, mix_randao}
use shasper.Executive.Mutators.{add_slashing}
use shasper.Executive.Operations.Votes.{push_attestation}
use shasper.Executive.Operations.Registry.{add_validator}
use shasper.Executive.Epoch.Finalize.{reset_eth1_votes, rotate}
use shasper.Executive.Stable.{IsStable}
use shasper.Executive.Stable.Blocks.{stable_randao, stable_eth1, stable_operations}
use shasper.Executive.Transition.{process_block, process_slot, state_transition}
use shasper.Builder.{execute_block}
use shasper.Chain.{id}

module _ (C : Config) where
  -- The header of a block, with the root of the state left out.
  abbrev header_of : Block → BeaconBlockHeader
  header_of block = record {
    slot = block.slot;
    parent_root = block.parent_root;
    state_root = zero_hash;
    body_root = C.hasher.body_root block.body;
    signature = replicate 96 0;
  }

  abbrev Heads : Block → BeaconState → Type 0
  Heads block s = s.latest_block_header ≡ header_of block

  push_attestation-Heads :
      (block : Block) (c : Bool) (a : PendingAttestation) (s : BeaconState)
      → Heads block s
      → Heads block (push_attestation c a s)
  unfolding push_attestation
  push_attestation-Heads block true a s h = h
  push_attestation-Heads block false a s h = h

  Heads-IsStable : (block : Block) → IsStable C (Heads block)
  unfolding add_slashing add_validator add_eth1_vote mix_randao rotate reset_eth1_votes
  Heads-IsStable block = record {
    at_validator = λ s i v h. h;
    at_balance = λ s i b h. h;
    at_slashing = λ b s h. h;
    at_new = λ d s h. h;
    at_deposit_index = λ s k h. h;
    at_vote = λ body s h. h;
    at_eth1 = λ s d h. h;
    at_randao = λ body s h. h;
    at_attestation = push_attestation-Heads block;
    at_effective = λ s vs e h. h;
  }

  module _ (B : BlsConfig) where
    header-Heads :
        (block : Block) (s s' : BeaconState)
        → process_block_header C B block s ≡ (ok tt, s')
        → Heads block s'
    unfolding process_block_header set_latest_header
    header-Heads block s s' ran =
        let (slot_same, e_1) = runs_check _ _ _ (runs_get _ _ ran) in
        let (parent_same, e_2) = runs_check _ _ _ (runs_get _ _ e_1) in
        let (proposer_index, found, e_3) = runs_read _ _ (runs_step _ _ e_2) in
        let (proposer, there, e_4) = runs_read _ _ e_3 in
        let (unslashed, e_5) = runs_check _ _ _ e_4 in
        let (signed, same) = runs_require _ _ (runs_get _ _ e_5) in
        ap (λ t. t.latest_block_header) same

    process_block-Heads :
        (block : Block) (s s' : BeaconState)
        → process_block C B block s ≡ (ok tt, s')
        → Heads block s'
    unfolding process_block
    process_block-Heads block s s' ran =
        let (done, t, e, rest) = runs_bind _ _ ran in
        let st = Heads-IsStable block in
        let kept = bind-Keeps _ _ (stable_randao C st B block.body) λ _.
          bind-Keeps _ _ (stable_eth1 C st block.body) λ _. stable_operations C st B block.body in
        subst (Heads block) (ap (λ r. r.1) rest) (kept.keeps t (header-Heads block s t e))

    -- In the slot after a block that was executed, the latest header of the state has the identifier of
    -- that block: it is the parent that the next block is to name.
    pub execute_block-id :
        (block : BeaconBlock) (s s' : BeaconState)
        → execute_block C B block s ≡ (ok tt, s')
        → C.hasher.header_root (signing_header (process_slot C s').latest_block_header) ≡ id C block
    unfolding execute_block state_transition process_slot id
    execute_block-id block s s' ran =
        let (at_slot, t, e_1, rest) = runs_bind _ _ ran in
        let (processed, t', e_2, rest') = runs_bind _ _ rest in
        let (root_same, same) = runs_require _ _ (runs_get _ _ rest') in
        let heads : Heads (sealed_block block) s' =
          subst (Heads (sealed_block block)) (sym same)
            (process_block-Heads (sealed_block block) t t' e_2) in
        let root : block.state_root ≡ C.hasher.state_root s' =
          (bytes_eq_iff block.state_root (C.hasher.state_root t')).0 root_same
          ∙ ap C.hasher.state_root (sym same) in
        let sealed : BeaconBlockHeader → Bytes = λ h. C.hasher.header_root (
          signing_header (record h {
            state_root =
                if bytes_eq h.state_root zero_hash then C.hasher.state_root s' else h.state_root;
          })) in
        let with_root : Bytes → Bytes = λ r. C.hasher.header_root (record {
          slot = block.slot;
          parent_root = block.parent_root;
          state_root = r;
          body_root = C.hasher.body_root block.body;
        }) in
        ap sealed heads
        ∙ ap (λ b. with_root (if b then C.hasher.state_root s' else zero_hash))
            (bytes_eq_refl zero_hash)
        ∙ ap with_root (sym root)
