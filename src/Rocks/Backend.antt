-- ===== src/Rocks/Backend.antt =====
-- The queries of the backend, and the opening of a database (blockchain/common/rocksdb/src/backend.rs).
use shasper.Prelude.{
  if◌then◌else◌, ℕ, ◌%◌, ◌^◌, Bool, true, false, List, [], Option, none, some, Bytes,
}
use shasper.Results.{Result, ok, err, panic, ◌>>=◌}
use shasper.Rocks.{
  Error, not_exist, corrupted, canon_depth_mappings, auxiliaries, BlockData, Database, Encoding,
  decode_stored, fetch_block_data, fetch_head, fetch_genesis,
}
use shasper.Rocks.Settlement.{
  RocksSettlement, new, insert_block, insert_canon_depth_mapping, set_genesis, set_head, commit,
}

pub record RocksBackend (D : Type 0) : Type 0 where
  pub db : D
  pub head : Bytes
  pub genesis : Bytes

-- `ok_or(Error::NotExist)`
abbrev pub existing : {A : Type 0} → Option A → Result Error A
existing none = err not_exist
existing (some a) = ok a

module _ {D B S A K : Type 0} (database : Database D) (encoding : Encoding B S A K) where
  unfoldable pub data_at : RocksBackend D → Bytes → Result Error (BlockData B S)
  unfolding fetch_block_data
  data_at backend id = fetch_block_data database encoding backend.db id >>= existing

  unfoldable pub contains : RocksBackend D → Bytes → Result Error Bool
  unfolding fetch_block_data
  contains backend id = fetch_block_data database encoding backend.db id >>= λ found.
      ok (elim found [ none ↦ false | some data_of ↦ true ])

  unfoldable pub is_canon : RocksBackend D → Bytes → Result Error Bool
  unfolding data_at
  is_canon backend id = data_at backend id >>= λ d. ok d.is_canon

  unfoldable pub children_at : RocksBackend D → Bytes → Result Error (List Bytes)
  unfolding data_at
  children_at backend id = data_at backend id >>= λ d. ok d.children

  unfoldable pub depth_at : RocksBackend D → Bytes → Result Error ℕ
  unfolding data_at
  depth_at backend id = data_at backend id >>= λ d. ok d.depth

  unfoldable pub block_at : RocksBackend D → Bytes → Result Error B
  unfolding data_at
  block_at backend id = data_at backend id >>= λ d. ok d.block

  unfoldable pub state_at : RocksBackend D → Bytes → Result Error S
  unfolding data_at
  state_at backend id = data_at backend id >>= λ d. ok d.state

  unfoldable pub lookup_canon_depth : RocksBackend D → ℕ → Result Error (Option Bytes)
  unfolding decode_stored
  lookup_canon_depth backend depth =
      database.get backend.db canon_depth_mappings (encoding.encode_depth (depth % 2 ^ 64))
      >>= decode_stored encoding.decode_id

  unfoldable pub auxiliary : RocksBackend D → K → Result Error (Option A)
  unfolding decode_stored
  auxiliary backend key =
      database.get backend.db auxiliaries (encoding.encode_key key)
      >>= decode_stored encoding.decode_auxiliary

  -- `settle` is what the operation does to the settlement.
  unfoldable pub commit_operation :
      (RocksSettlement D → Result Error (RocksSettlement D))
      → RocksBackend D
      → Result Error (RocksBackend D)
  unfolding new commit
  commit_operation settle backend = do
    settlement ← settle (new database encoding backend.db)
    (new_head, db) ← commit database encoding settlement
    ok (record backend { db = db; head = elim new_head [ none ↦ backend.head | some h ↦ h ] })

  -- The settlement of a genesis block.
  unfoldable pub genesis_settlement : Bytes → B → S → D → RocksSettlement D
  unfolding new insert_block insert_canon_depth_mapping set_genesis set_head
  genesis_settlement id block state db = set_head database encoding id (
      set_genesis database encoding id (
        insert_canon_depth_mapping database encoding 0 id
          (insert_block database encoding id block state 0 [] true (new database encoding db))))

  -- `id` and `has_parent` are `block.id()` and `block.parent_id().is_some()`; a genesis with a parent
  -- panics.
  unfoldable pub create_genesis :
      (B → Bytes) → (B → Bool) → D → B × S → Result Error (RocksBackend D)
  unfolding genesis_settlement commit
  create_genesis id has_parent db (block, state) =
      if has_parent block
      then panic
      else (commit database encoding (genesis_settlement (id block) block state db)
          >>= λ (new_head, db'). ok (record { db = db'; head = id block; genesis = id block }))

  -- The match on the head and the genesis that were read.
  unfoldable pub open_found :
      (B → Bytes)
      → (B → Bool)
      → Result Error (B × S)
      → D
      → Option Bytes
      → Option Bytes
      → Result Error (RocksBackend D)
  unfolding create_genesis
  open_found id has_parent create db (some head) (some genesis) =
      ok (record { db = db; head = head; genesis = genesis })
  open_found id has_parent create db none none = create >>= create_genesis id has_parent db
  open_found id has_parent create db (some head) none = err corrupted
  open_found id has_parent create db none (some genesis) = err corrupted

  unfoldable pub open_or_create :
      (B → Bytes) → (B → Bool) → Result Error (B × S) → D → Result Error (RocksBackend D)
  unfolding fetch_head fetch_genesis open_found
  open_or_create id has_parent create db = do
    head ← fetch_head database encoding db
    genesis ← fetch_genesis database encoding db
    open_found id has_parent create db head genesis
