-- ===== src/Rocks/Reopened.antt =====
-- A database that is opened again (open_or_create in blockchain/common/rocksdb/src/backend.rs).
use shasper.Prelude.{
  ◌≡◌, refl, sym, ap, subst, ◌∙◌, Bool, Option, none, some, Bytes, bytes_eq_refl, if◌then◌else◌,
  Bool-cases, inl, inr,
}
use shasper.Results.{Result, ok, err, panic, ◌>>=◌, >>=-eq-ok, ok-injective}
use shasper.Rocks.{
  Error, corrupted, info, column_eq, insert_change, find_change, Database, Encoding, decode_stored,
  fetch_head, fetch_genesis,
}
use shasper.Rocks.Settlement.{
  RocksSettlement, change, new, insert_block, insert_canon_depth_mapping, set_head, set_genesis,
  commit,
}
use shasper.Rocks.Backend.{
  RocksBackend, create_genesis, open_found, open_or_create, genesis_settlement,
}
use shasper.Rocks.Written.{IsDatabase, IsEncoding, written_key}

module _ {D B S A K : Type 0} (database : Database D) (encoding : Encoding B S A K)
    (is_database : IsDatabase database) (is_encoding : IsEncoding encoding) where
  genesis_head :
      (id : Bytes) (block : B) (state : S) (db : D)
      → find_change info encoding.key_head
          (genesis_settlement database encoding id block state db).changes
        ≡ some (some (encoding.encode_id id))
  unfolding find_change insert_change column_eq genesis_settlement change new insert_block
      insert_canon_depth_mapping set_head set_genesis
  genesis_head id block state db =
      rw (is_encoding.keys_differ, is_encoding.keys_differ, bytes_eq_refl encoding.key_head) refl

  genesis_genesis :
      (id : Bytes) (block : B) (state : S) (db : D)
      → find_change info encoding.key_genesis
          (genesis_settlement database encoding id block state db).changes
        ≡ some (some (encoding.encode_id id))
  unfolding find_change insert_change column_eq genesis_settlement change new insert_block
      insert_canon_depth_mapping set_head set_genesis
  genesis_genesis id block state db =
      rw (is_encoding.keys_differ, bytes_eq_refl encoding.key_genesis) refl

  genesis_fine :
      (id : Bytes) (block : B) (state : S) (db : D)
      → (genesis_settlement database encoding id block state db).last_error ≡ none
  unfolding genesis_settlement change new insert_block insert_canon_depth_mapping set_head
      set_genesis
  genesis_fine id block state db = refl

  read_key :
      (db : D) (key id : Bytes)
      → database.get db info key ≡ ok (some (encoding.encode_id id))
      → (database.get db info key >>= decode_stored encoding.decode_id) ≡ ok (some id)
  unfolding decode_stored
  read_key db key id found =
      let decoded : Option Bytes → Result Error (Option Bytes) =
        λ o. elim o [ none ↦ err corrupted | some a ↦ ok (some a) ] in
      ap (λ r. r >>= decode_stored encoding.decode_id) found ∙ ap decoded (is_encoding.read_id id)

  -- The database of a genesis that is committed has it as head and as genesis.
  genesis_read :
      (id : Bytes) (block : B) (state : S) (db db' : D) (head : Option Bytes)
      → commit database encoding (genesis_settlement database encoding id block state db)
        ≡ ok (head, db')
      → (fetch_head database encoding db' ≡ ok (some id))
        × (fetch_genesis database encoding db' ≡ ok (some id))
  unfolding fetch_head fetch_genesis
  genesis_read id block state db db' head ran =
      let s : RocksSettlement D = genesis_settlement database encoding id block state db in
      let fine : s.last_error ≡ none = genesis_fine id block state db in
      let stored : Option Bytes = some (encoding.encode_id id) in
      (
        read_key db' encoding.key_head id (
            written_key database encoding is_database is_encoding s head db' info encoding.key_head
              stored fine (genesis_head id block state db) ran),
        read_key db' encoding.key_genesis id (
            written_key database encoding is_database is_encoding s head db' info
              encoding.key_genesis stored fine (genesis_genesis id block state db) ran),
      )

  -- A database with a head and a genesis opens with them.
  opened :
      (id : B → Bytes) (has_parent : B → Bool) (create : Result Error (B × S)) (db : D)
      (head genesis : Bytes)
      → fetch_head database encoding db ≡ ok (some head)
      → fetch_genesis database encoding db ≡ ok (some genesis)
      → open_or_create database encoding id has_parent create db
        ≡ ok (record { db = db; head = head; genesis = genesis })
  unfolding open_or_create open_found
  opened id has_parent create db head genesis e_1 e_2 = rw (e_1, e_2) refl

  -- What a backend that was opened or created reads in its own database.
  abbrev Reads : RocksBackend D → Type 0
  Reads backend =
      (fetch_head database encoding backend.db ≡ ok (some backend.head))
      × (fetch_genesis database encoding backend.db ≡ ok (some backend.genesis))

  create_genesis-Reads :
      (id : B → Bytes) (has_parent : B → Bool) (db : D) (made : B × S) (backend : RocksBackend D)
      → create_genesis database encoding id has_parent db made ≡ ok backend
      → Reads backend
  unfolding create_genesis
  create_genesis-Reads id has_parent db (block, state) backend ran =
      elim (Bool-cases (has_parent block)) [
        | inl e ↦ absurd (cc)
        | inr e ↦
            let after : Option Bytes × D → Result Error (RocksBackend D) =
              λ (new_head, db'). ok (record { db = db'; head = id block; genesis = id block }) in
            let settled : Result Error (RocksBackend D) =
              commit database encoding
                (genesis_settlement database encoding (id block) block state db)
              >>= after in
            let branch : Bool → Result Error (RocksBackend D) = λ b. if b then panic else settled in
            let ((head, db'), wrote, same) = >>=-eq-ok _ after (ap branch (sym e) ∙ ran) in
            subst Reads (ok-injective same) (genesis_read (id block) block state db db' head wrote)
      ]

  open_found-Reads :
      (id : B → Bytes) (has_parent : B → Bool) (create : Result Error (B × S)) (db : D)
      (head genesis : Option Bytes) (backend : RocksBackend D)
      → fetch_head database encoding db ≡ ok head
      → fetch_genesis database encoding db ≡ ok genesis
      → open_found database encoding id has_parent create db head genesis ≡ ok backend
      → Reads backend
  unfolding open_found
  open_found-Reads id has_parent create db (some head) (some genesis) backend e_1 e_2 ran =
      subst Reads (ok-injective ran) (e_1, e_2)
  open_found-Reads id has_parent create db none none backend e_1 e_2 ran =
      let (made, created, rest) = >>=-eq-ok create _ ran in
      create_genesis-Reads id has_parent db made backend rest
  open_found-Reads id has_parent create db (some head) none backend e_1 e_2 ran = absurd (cc)
  open_found-Reads id has_parent create db none (some genesis) backend e_1 e_2 ran = absurd (cc)

  -- A database that was opened or created opens again with the same head and genesis, with nothing
  -- created, where the codec reads back its identifiers and the writes of the database are kept.
  pub open_or_create_again :
      (id : B → Bytes) (has_parent : B → Bool) (create create_2 : Result Error (B × S)) (db : D)
      (backend : RocksBackend D)
      → open_or_create database encoding id has_parent create db ≡ ok backend
      → open_or_create database encoding id has_parent create_2 backend.db ≡ ok backend
  unfolding open_or_create
  open_or_create_again id has_parent create create_2 db backend ran =
      let (head, e_1, rest) = >>=-eq-ok (fetch_head database encoding db) _ ran in
      let (genesis, e_2, found) = >>=-eq-ok (fetch_genesis database encoding db) _ rest in
      let (e_3, e_4) =
        open_found-Reads id has_parent create db head genesis backend e_1 e_2 found in
      opened id has_parent create_2 backend.db backend.head backend.genesis e_3 e_4
