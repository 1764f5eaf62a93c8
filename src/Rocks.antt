-- ===== src/Rocks.antt =====
-- blockchain/common/rocksdb/src: the blocks in a database. The database and the codec of what is stored
-- are parameters; a write of changes is one batch, which goes through as a whole. A state is kept as its
-- raw form.
pub mod Settlement
pub mod Backend
pub mod Written
pub mod Reopened
use shasper.Prelude.{
  ◌≡◌, ℕ, Bool, true, false, ◌&&◌, List, [], ◌∷◌, Option, none, some, if◌then◌else◌, Bytes,
  bytes_eq,
}
use shasper.Results.{Result, ok, err, ◌>>=◌}

pub data Error : Type 0 where
  invalid_operation : Error
  is_genesis : Error
  not_exist : Error
  corrupted : Error
  rocks : Bytes → Error

pub data Column : Type 0 where
  blocks : Column
  canon_depth_mappings : Column
  auxiliaries : Column
  info : Column

unfoldable pub column_eq : Column → Column → Bool
column_eq blocks blocks = true
column_eq canon_depth_mappings canon_depth_mappings = true
column_eq auxiliaries auxiliaries = true
column_eq info info = true
column_eq _ _ = false

-- The map from the keys of columns to what is written there, or none for what is deleted.
abbrev pub Changes : Type 0
Changes = List ((Column × Bytes) × Option Bytes)

unfoldable pub insert_change : Column → Bytes → Option Bytes → Changes → Changes
unfolding column_eq
insert_change column key value [] = ((column, key), value) ∷ []
insert_change column key value (((c, k), old) ∷ changes) =
    if column_eq c column && bytes_eq k key
    then ((column, key), value) ∷ changes
    else ((c, k), old) ∷ insert_change column key value changes

-- What the changes say of a key.
unfoldable pub find_change : Column → Bytes → Changes → Option (Option Bytes)
unfolding column_eq
find_change column key [] = none
find_change column key (((c, k), value) ∷ changes) =
    if column_eq c column && bytes_eq k key then some value else find_change column key changes

pub record BlockData (B S : Type 0) : Type 0 where
  pub block : B
  pub state : S
  pub depth : ℕ
  pub children : List Bytes
  pub is_canon : Bool

-- The database `D`, with what its calls may fail with; a missing column is `corrupted`.
pub record Database (D : Type 0) : Type 0 where
  pub get : D → Column → Bytes → Result Error (Option Bytes)
  pub write : D → Changes → Result Error D

-- The codec of blocks `B`, states `S`, auxiliaries `A` and their keys `K`, and the two keys of `info`.
pub record Encoding (B S A K : Type 0) : Type 0 where
  pub encode_data : BlockData B S → Bytes
  pub decode_data : Bytes → Option (BlockData B S)
  pub encode_id : Bytes → Bytes
  pub decode_id : Bytes → Option Bytes
  pub encode_depth : ℕ → Bytes
  pub encode_key : K → Bytes
  pub encode_auxiliary : A → Bytes
  pub decode_auxiliary : Bytes → Option A
  pub key_head : Bytes
  pub key_genesis : Bytes

-- `decode(raw).ok_or(Error::Corrupted)`, where there is something to decode.
unfoldable pub decode_stored :
    {A : Type 0} → (Bytes → Option A) → Option Bytes → Result Error (Option A)
decode_stored decode none = ok none
decode_stored decode (some raw) = elim (decode raw) [ none ↦ err corrupted | some a ↦ ok (some a) ]

module _ {D B S A K : Type 0} (database : Database D) (encoding : Encoding B S A K) where
  unfoldable pub fetch_block_data : D → Bytes → Result Error (Option (BlockData B S))
  unfolding decode_stored
  fetch_block_data db id =
      database.get db blocks (encoding.encode_id id) >>= decode_stored encoding.decode_data

  unfoldable pub fetch_head : D → Result Error (Option Bytes)
  unfolding decode_stored
  fetch_head db = database.get db info encoding.key_head >>= decode_stored encoding.decode_id

  unfoldable pub fetch_genesis : D → Result Error (Option Bytes)
  unfolding decode_stored
  fetch_genesis db = database.get db info encoding.key_genesis >>= decode_stored encoding.decode_id
