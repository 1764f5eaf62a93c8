-- ===== src/Executive/Stable/Blocks.antt =====
-- Processing a block keeps a stable property.
use shasper.Prelude.{ℕ, Bool, true, false, List, [], ◌∷◌, Option, none, some, if◌then◌else◌, add64}
use shasper.Types.{
  BeaconState, PendingAttestation, BeaconBlockBody, Block, DepositData, ProposerSlashing,
  AttesterSlashing, Attestation, Deposit, VoluntaryExit, is_slashable,
}
use shasper.Config.{Config, BlsConfig}
use shasper.Executive.Header.{
  process_block_header, process_randao, process_eth1_data, set_latest_header, mix_randao,
}
use shasper.Executive.Operations.{process_operations}
use shasper.Executive.Operations.Slashings.{
  process_proposer_slashing, slash_each, process_attester_slashing,
}
use shasper.Executive.Operations.Votes.{process_attestation, push_attestation}
use shasper.Executive.Operations.Registry.{
  deposit_new, process_deposit, process_voluntary_exit, add_validator,
}
use shasper.Executive.Transition.{process_block}
use shasper.Executive.Mutators.{increase_balance}
use shasper.Executive.Monad.{modify}
use shasper.Executive.Keeps.{
  Keeps, keeps_rules, modify-Keeps, bind-Keeps, gets-Keeps, reads-Keeps, if-Keeps,
}
use shasper.Executive.Stable.{IsStable, stable_increase, stable_exit, stable_slash}

module _ (C : Config) {P : BeaconState → Type 0} (st : IsStable C P) where
  stable_mix : (body : BeaconBlockBody) → Keeps P (modify (mix_randao C body))
  stable_mix body = modify-Keeps _ (st.at_randao body)

  pub stable_eth1 : (body : BeaconBlockBody) → Keeps P (process_eth1_data C body)
  unfolding process_eth1_data
  stable_eth1 body =
      bind-Keeps _ _ (modify-Keeps _ (st.at_vote body)) (λ _. modify-Keeps _ (λ s. st.at_eth1 s _))

  stable_push : (c : Bool) → (a : PendingAttestation) → Keeps P (modify (push_attestation c a))
  stable_push c a = modify-Keeps _ (st.at_attestation c a)

  module _ (B : BlsConfig) where
    pub stable_randao : (body : BeaconBlockBody) → Keeps P (process_randao C B body)
    unfolding process_randao
    stable_randao body = search (keeps_rules, stable_mix) depth 30

    pub stable_proposer_slashing :
        (t : ProposerSlashing) → Keeps P (process_proposer_slashing C B t)
    unfolding process_proposer_slashing
    stable_proposer_slashing t = search (keeps_rules, stable_slash C st) depth 40

    stable_slash_each : (is : List ℕ) (any : Bool) → Keeps P (slash_each C B is any)
    unfolding slash_each
    stable_slash_each [] any = search keeps_rules
    stable_slash_each (i ∷ is) any = bind-Keeps _ _ (reads-Keeps _) λ v.
        bind-Keeps _ _ (gets-Keeps _) λ epoch.
          if-Keeps (is_slashable v epoch) _ _
            (bind-Keeps _ _ (stable_slash C st i none) (λ _. stable_slash_each is true))
            (stable_slash_each is any)

    pub stable_attester_slashing :
        (t : AttesterSlashing) → Keeps P (process_attester_slashing C B t)
    unfolding process_attester_slashing
    stable_attester_slashing t = search (keeps_rules, stable_slash_each) depth 40

    pub stable_attestation : (t : Attestation) → Keeps P (process_attestation C B t)
    unfolding process_attestation
    stable_attestation t = search (keeps_rules, stable_push) depth 40

    if_stable :
        (b : Bool) (s : BeaconState) (d : DepositData)
        → P s
        → P (if b then add_validator C d s else s)
    if_stable true s d h = st.at_new d s h
    if_stable false s d h = h

    stable_deposit_new : (d : DepositData) → Keeps P (deposit_new C B d)
    unfolding deposit_new
    stable_deposit_new d = bind-Keeps _ _ (gets-Keeps _) λ b. modify-Keeps _ (λ s. if_stable b s d)

    deposit_known :
        (d : DepositData) (known : Option ℕ)
        → Keeps P (elim known [ none ↦ deposit_new C B d | some i ↦ increase_balance i d.amount ])
    deposit_known d none = stable_deposit_new d
    deposit_known d (some i) = stable_increase C st i d.amount

    stable_deposit_index :
        Keeps P (modify λ s. record s { eth1_deposit_index = add64 s.eth1_deposit_index 1 })
    stable_deposit_index = modify-Keeps _ (λ s. st.at_deposit_index s _)

    pub stable_deposit : (t : Deposit) → Keeps P (process_deposit C B t)
    unfolding process_deposit
    stable_deposit t = search (keeps_rules, deposit_known, stable_deposit_index) depth 30

    pub stable_voluntary_exit : (t : VoluntaryExit) → Keeps P (process_voluntary_exit C B t)
    unfolding process_voluntary_exit
    stable_voluntary_exit t = search (keeps_rules, stable_exit C st) depth 40

    pub stable_operations : (body : BeaconBlockBody) → Keeps P (process_operations C B body)
    unfolding process_operations
    stable_operations body =
        search
          (
            keeps_rules, stable_proposer_slashing, stable_attester_slashing, stable_attestation,
            stable_deposit, stable_voluntary_exit,
          )
          depth 40

    module _ (header : (b : Block) (s : BeaconState) → P s → P (set_latest_header C b s)) where
      stable_header : (b : Block) → Keeps P (modify (set_latest_header C b))
      stable_header b = modify-Keeps _ (header b)

      stable_block_header : (b : Block) → Keeps P (process_block_header C B b)
      unfolding process_block_header
      stable_block_header b = search (keeps_rules, stable_header) depth 30

      pub stable_block : (b : Block) → Keeps P (process_block C B b)
      unfolding process_block
      stable_block b =
          search (keeps_rules, stable_block_header, stable_randao, stable_eth1, stable_operations)
            depth 30
