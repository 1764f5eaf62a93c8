-- ===== src/Rocks/Written.antt =====
-- What is read back from a database after a commit (blockchain/common/rocksdb/src).
use shasper.Prelude.{
  ℕ, ◌%◌, ◌^◌, ◌≡◌, refl, sym, ap, ◌∙◌, Bool, true, false, List, [], ◌∷◌, ◌++◌, ◌&&◌, Option, none,
  some, Bytes, bytes_eq, bytes_eq_refl, Bool-cases, inl, inr,
}
use shasper.Results.{Result, ok, err, ◌>>=◌, >>=-eq-ok, ok-injective}
use shasper.Rocks.{
  Error, corrupted, Column, blocks, canon_depth_mappings, auxiliaries, info, column_eq, Changes,
  insert_change, find_change, BlockData, Database, Encoding, decode_stored, fetch_block_data,
}
use shasper.Rocks.Settlement.{
  RocksSettlement, change, new, insert_block, modify_data, push_child, commit,
}
use shasper.Rocks.Backend.{RocksBackend, existing, data_at}

-- What the database library promises of a batch: afterwards each key has what the batch says of it, and
-- the others have what they had.
pub record IsDatabase {D : Type 0} (database : Database D) : Type 0 where
  pub written :
      (db db' : D) (changes : Changes) (column : Column) (key : Bytes)
      → database.write db changes ≡ ok db'
      → database.get db' column key ≡ elim (find_change column key changes) [
        | none ↦ database.get db column key
        | some v ↦ ok v
      ]

-- What the codec promises: it reads what it wrote, and the two keys differ.
pub record IsEncoding {B S A K : Type 0} (encoding : Encoding B S A K) : Type 0 where
  pub read_data : (d : BlockData B S) → encoding.decode_data (encoding.encode_data d) ≡ some d
  pub read_id : (id : Bytes) → encoding.decode_id (encoding.encode_id id) ≡ some id
  pub keys_differ : bytes_eq encoding.key_genesis encoding.key_head ≡ false

column_eq_refl : (c : Column) → column_eq c c ≡ true
unfolding column_eq
column_eq_refl blocks = refl
column_eq_refl canon_depth_mappings = refl
column_eq_refl auxiliaries = refl
column_eq_refl info = refl

find_change-insert_change :
    (column : Column) (key : Bytes) (value : Option Bytes) (changes : Changes)
    → find_change column key (insert_change column key value changes) ≡ some value
unfolding find_change insert_change
find_change-insert_change column key value [] = rw (column_eq_refl column, bytes_eq_refl key) refl
find_change-insert_change column key value (((c, k), old) ∷ changes) =
    elim (Bool-cases (column_eq c column && bytes_eq k key)) [
      | inl same ↦ rw (same, column_eq_refl column, bytes_eq_refl key) refl
      | inr other ↦ rw (other, other) (find_change-insert_change column key value changes)
    ]

module _ {D B S A K : Type 0} (database : Database D) (encoding : Encoding B S A K)
    (is_database : IsDatabase database) (is_encoding : IsEncoding encoding) where
  -- A commit that succeeds wrote the changes.
  commit_wrote :
      (s : RocksSettlement D) (head : Option Bytes) (db' : D)
      → s.last_error ≡ none
      → commit database encoding s ≡ ok (head, db')
      → database.write s.db s.changes ≡ ok db'
  unfolding commit
  commit_wrote s head db' fine ran =
      let after : Option Error → Result Error (Option Bytes × D) = λ failed. elim failed [
        | some e ↦ err e
        | none ↦ (database.write s.db s.changes >>= λ db. ok (s.new_head, db))
      ] in
      let (db, wrote, same) =
        >>=-eq-ok (database.write s.db s.changes) _ (ap after (sym fine) ∙ ran) in
      wrote ∙ cc

  pub written_key :
      (s : RocksSettlement D) (head : Option Bytes) (db' : D) (column : Column) (key : Bytes)
      (value : Option Bytes)
      → s.last_error ≡ none
      → find_change column key s.changes ≡ some value
      → commit database encoding s ≡ ok (head, db')
      → database.get db' column key ≡ ok value
  written_key s head db' column key value fine found ran =
      let read : Option (Option Bytes) → Result Error (Option Bytes) =
        λ o. elim o [ none ↦ database.get s.db column key | some v ↦ ok v ] in
      is_database.written s.db db' s.changes column key (commit_wrote s head db' fine ran)
      ∙ ap read found

  -- The data of a block that a settlement changed are read back after its commit.
  data_written :
      (s : RocksSettlement D) (head : Option Bytes) (db' : D) (id : Bytes) (d : BlockData B S)
      → s.last_error ≡ none
      → find_change blocks (encoding.encode_id id) s.changes ≡ some (some (encoding.encode_data d))
      → commit database encoding s ≡ ok (head, db')
      → fetch_block_data database encoding db' id ≡ ok (some d)
  unfolding fetch_block_data decode_stored
  data_written s head db' id d fine found ran =
      let decoded : Option (BlockData B S) → Result Error (Option (BlockData B S)) =
        λ o. elim o [ none ↦ err corrupted | some a ↦ ok (some a) ] in
      ap (λ r. r >>= decode_stored encoding.decode_data)
        (written_key s head db' blocks (encoding.encode_id id) (some (encoding.encode_data d)) fine
          found ran)
      ∙ ap decoded (is_encoding.read_data d)

  -- A block that is inserted is read back after the commit, with all that was stored of it; its depth is
  -- cut to 64 bits.
  data_at-insert_block :
      (s : RocksSettlement D) (id : Bytes) (block : B) (state : S) (depth : ℕ)
      (children : List Bytes) (is_canon : Bool) (head : Option Bytes) (backend : RocksBackend D)
      → s.last_error ≡ none
      → commit database encoding
          (insert_block database encoding id block state depth children is_canon s)
        ≡ ok (head, backend.db)
      → data_at database encoding backend id
        ≡ ok (record {
          block = block;
          state = state;
          depth = depth % 2 ^ 64;
          children = children;
          is_canon = is_canon;
        })
  unfolding data_at insert_block change
  data_at-insert_block s id block state depth children is_canon head backend fine ran =
      let d : BlockData B S = record {
        block = block;
        state = state;
        depth = depth % 2 ^ 64;
        children = children;
        is_canon = is_canon;
      } in
      let next : RocksSettlement D =
        change blocks (encoding.encode_id id) (some (encoding.encode_data d)) s in
      let chosen : Option Error → Result Error (Option Bytes × D) =
        λ failed. commit database encoding (elim failed [ none ↦ next | some e ↦ s ]) in
      ap (λ r. r >>= existing)
        (data_written next head backend.db id d fine
          (find_change-insert_change blocks (encoding.encode_id id) _ s.changes)
          (sym (ap chosen fine) ∙ ran))

  -- A child is pushed to what the database has of the block.
  push_child_stored :
      (id child : Bytes) (d : BlockData B S) (s : RocksSettlement D)
      → s.last_error ≡ none
      → fetch_block_data database encoding s.db id ≡ ok (some d)
      → push_child database encoding id child s
        ≡ ok (
            change blocks
              (encoding.encode_id id)
              (some (encoding.encode_data (record d { children = d.children ++ child ∷ [] })))
              s)
  unfolding push_child modify_data
  push_child_stored id child d s fine stored =
      let next : Result Error (Option (BlockData B S)) → Result Error (RocksSettlement D) = λ r.
        modify_data database encoding id (λ d. record d { children = d.children ++ child ∷ [] }) r
          s in
      let chosen : Option Error → Result Error (RocksSettlement D) = λ failed. elim failed [
        | none ↦ next (fetch_block_data database encoding s.db id)
        | some e ↦ ok s
      ] in
      ap chosen fine ∙ ap next stored

  -- Of two children that one settlement pushes to a block, only the second is stored: each push starts
  -- from the data in the database, and not from what is already among the changes.
  pub push_child_lost :
      (db db' : D) (id first second : Bytes) (d : BlockData B S) (s : RocksSettlement D)
      (s' : RocksSettlement D) (head : Option Bytes)
      → fetch_block_data database encoding db id ≡ ok (some d)
      → push_child database encoding id first (new database encoding db) ≡ ok s
      → push_child database encoding id second s ≡ ok s'
      → commit database encoding s' ≡ ok (head, db')
      → fetch_block_data database encoding db' id
        ≡ ok (some (record d { children = d.children ++ second ∷ [] }))
  unfolding new change
  push_child_lost db db' id first second d s s' head stored e_1 e_2 ran =
      let after : (child : Bytes) → BlockData B S =
        λ child. record d { children = d.children ++ child ∷ [] } in
      let s_1 : RocksSettlement D =
        change blocks (encoding.encode_id id) (some (encoding.encode_data (after first)))
          (new database encoding db) in
      let s_2 : RocksSettlement D =
        change blocks (encoding.encode_id id) (some (encoding.encode_data (after second))) s_1 in
      let same_1 : s ≡ s_1 =
        ok-injective
          (sym e_1 ∙ push_child_stored id first d (new database encoding db) refl stored) in
      let same_2 : s' ≡ s_2 = ok-injective (
        sym e_2
        ∙ ap (push_child database encoding id second) same_1
        ∙ push_child_stored id second d s_1 refl stored) in
      data_written s_2 head db' id (after second) refl
        (find_change-insert_change blocks (encoding.encode_id id) _ s_1.changes)
        (ap (commit database encoding) (sym same_2) ∙ ran)
