-- ===== src/Rocks/Settlement.antt =====
-- The changes of one commit (blockchain/common/rocksdb/src/settlement.rs). The first error sticks: what
-- comes after it changes nothing, and the commit returns it.
use shasper.Prelude.{ℕ, ◌%◌, ◌^◌, Bool, List, [], ◌∷◌, ◌++◌, Option, none, some, Bytes}
use shasper.Results.{Result, ok, err, panic, diverge, ◌>>=◌}
use shasper.Rocks.{
  Error, corrupted, Column, blocks, canon_depth_mappings, auxiliaries, info, Changes, insert_change,
  BlockData, Database, Encoding, fetch_block_data,
}

pub record RocksSettlement (D : Type 0) : Type 0 where
  pub db : D
  pub changes : Changes
  pub new_head : Option Bytes
  pub last_error : Option Error

-- `if self.last_error.is_some() { return }`
abbrev pub unless_failed : {D : Type 0} → RocksSettlement D → RocksSettlement D → RocksSettlement D
unless_failed s next = elim s.last_error [ none ↦ next | some e ↦ s ]

unfoldable pub change :
    {D : Type 0} → Column → Bytes → Option Bytes → RocksSettlement D → RocksSettlement D
unfolding insert_change
change column key value s = record s { changes = insert_change column key value s.changes }

module _ {D B S A K : Type 0} (database : Database D) (encoding : Encoding B S A K) where
  unfoldable pub new : D → RocksSettlement D
  new db = record { db = db; changes = []; new_head = none; last_error = none }

  unfoldable pub insert_block :
      Bytes → B → S → ℕ → List Bytes → Bool → RocksSettlement D → RocksSettlement D
  unfolding change
  insert_block id block state depth children is_canon s = unless_failed s (
      change blocks (encoding.encode_id id)
        (some (
          encoding.encode_data (record {
            block = block;
            state = state;
            depth = depth % 2 ^ 64;
            children = children;
            is_canon = is_canon;
          })))
        s)

  -- The data of a block in the database, changed and put among the changes.
  unfoldable pub modify_data :
      Bytes
      → (BlockData B S → BlockData B S)
      → Result Error (Option (BlockData B S))
      → RocksSettlement D
      → Result Error (RocksSettlement D)
  unfolding change
  modify_data id modify (ok (some data_of)) s =
      ok (change blocks (encoding.encode_id id) (some (encoding.encode_data (modify data_of))) s)
  modify_data id modify (ok none) s = ok (record s { last_error = some corrupted })
  modify_data id modify (err e) s = ok (record s { last_error = some e })
  modify_data id modify panic s = panic
  modify_data id modify diverge s = diverge

  -- A method that reads the database: it may panic with the library.
  abbrev pub unless_failed_reading :
      RocksSettlement D → Result Error (RocksSettlement D) → Result Error (RocksSettlement D)
  unless_failed_reading s next = elim s.last_error [ none ↦ next | some e ↦ ok s ]

  unfoldable pub push_child : Bytes → Bytes → RocksSettlement D → Result Error (RocksSettlement D)
  unfolding fetch_block_data modify_data
  push_child id child s = unless_failed_reading s (
      modify_data id (λ d. record d { children = d.children ++ child ∷ [] })
        (fetch_block_data database encoding s.db id) s)

  unfoldable pub set_canon : Bytes → Bool → RocksSettlement D → Result Error (RocksSettlement D)
  unfolding fetch_block_data modify_data
  set_canon id is_canon s = unless_failed_reading s (
      modify_data id (λ d. record d { is_canon = is_canon })
        (fetch_block_data database encoding s.db id) s)

  unfoldable pub insert_canon_depth_mapping : ℕ → Bytes → RocksSettlement D → RocksSettlement D
  unfolding change
  insert_canon_depth_mapping depth id s = unless_failed s (
      change canon_depth_mappings (encoding.encode_depth (depth % 2 ^ 64))
        (some (encoding.encode_id id)) s)

  unfoldable pub remove_canon_depth_mapping : ℕ → RocksSettlement D → RocksSettlement D
  unfolding change
  remove_canon_depth_mapping depth s =
      unless_failed s (change canon_depth_mappings (encoding.encode_depth (depth % 2 ^ 64)) none s)

  unfoldable pub insert_auxiliary : K → A → RocksSettlement D → RocksSettlement D
  unfolding change
  insert_auxiliary key value s =
      unless_failed s
        (change auxiliaries (encoding.encode_key key) (some (encoding.encode_auxiliary value)) s)

  unfoldable pub remove_auxiliary : K → RocksSettlement D → RocksSettlement D
  unfolding change
  remove_auxiliary key s = unless_failed s (change auxiliaries (encoding.encode_key key) none s)

  unfoldable pub set_head : Bytes → RocksSettlement D → RocksSettlement D
  unfolding change
  set_head head s = unless_failed s (
      change info encoding.key_head (some (encoding.encode_id head))
        (record s { new_head = some head }))

  unfoldable pub set_genesis : Bytes → RocksSettlement D → RocksSettlement D
  unfolding change
  set_genesis genesis s =
      unless_failed s (change info encoding.key_genesis (some (encoding.encode_id genesis)) s)

  -- The new head, and the database with the changes.
  unfoldable pub commit : RocksSettlement D → Result Error (Option Bytes × D)
  commit s = elim s.last_error [
    | some e ↦ err e
    | none ↦ (database.write s.db s.changes >>= λ db. ok (s.new_head, db))
  ]
