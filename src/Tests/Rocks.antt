-- ===== src/Tests/Rocks.antt =====
-- The database backend on concrete inputs: a database that is the list of its writes, newest first, and
-- blocks, states, auxiliaries and their keys that are numbers.
use shasper.Prelude.{
  ℕ, zero, suc, ◌≡◌, refl, sym, ap, ◌∙◌, Bool, true, false, List, [], ◌∷◌, ◌++◌, ◌&&◌, Option, none,
  some, Bytes, bytes_eq, if◌then◌else◌, Bool-cases, inl, inr,
}
use shasper.Results.{ok, err, ok-injective}
use shasper.Rocks.{
  Error, Column, column_eq, Changes, find_change, insert_change, BlockData, Database, Encoding,
  decode_stored, fetch_block_data, fetch_head, fetch_genesis,
}
use shasper.Rocks.Settlement.{
  RocksSettlement, change, new, insert_block, modify_data, push_child, commit, set_head,
  set_genesis, insert_canon_depth_mapping,
}
use shasper.Rocks.Backend.{
  RocksBackend, open_or_create, open_found, create_genesis, genesis_settlement,
}
use shasper.Rocks.Written.{IsDatabase, IsEncoding, push_child_lost}
use shasper.Rocks.Reopened.{open_or_create_again}

abbrev log : Database Changes
log = record {
  get = λ db column key. ok (elim (find_change column key db) [ none ↦ none | some v ↦ v ]);
  write = λ db changes. ok (changes ++ db);
}

find_change-append :
    (column : Column) (key : Bytes) (changes db : Changes)
    → log.get (changes ++ db) column key
      ≡ elim (find_change column key changes) [ none ↦ log.get db column key | some v ↦ ok v ]
unfolding find_change
find_change-append column key [] db = refl
find_change-append column key (((c, k), value) ∷ changes) db =
    elim (Bool-cases (column_eq c column && bytes_eq k key)) [
      | inl e ↦ rw e refl
      | inr e ↦ rw e (find_change-append column key changes db)
    ]

log-IsDatabase : IsDatabase log
log-IsDatabase = record {
  written = λ db db' changes column key wrote.
      ap (λ base. log.get base column key) (sym (ok-injective wrote))
      ∙ find_change-append column key changes db;
}

-- The children, with the bytes raised by one and a zero behind each.
unfoldable encode_child : Bytes → Bytes → Bytes
encode_child [] rest = 0 ∷ rest
encode_child (b ∷ child) rest = suc b ∷ encode_child child rest

unfoldable encode_children : List Bytes → Bytes
unfolding encode_child
encode_children [] = []
encode_children (child ∷ children) = encode_child child (encode_children children)

unfoldable to_first : ℕ → List Bytes → List Bytes
to_first b [] = (b ∷ []) ∷ []
to_first b (child ∷ children) = (b ∷ child) ∷ children

unfoldable decode_children : Bytes → List Bytes
unfolding to_first
decode_children [] = []
decode_children (zero ∷ bytes) = [] ∷ decode_children bytes
decode_children (suc b ∷ bytes) = to_first b (decode_children bytes)

decode_children-encode_child :
    (child rest : Bytes) → decode_children (encode_child child rest) ≡ child ∷ decode_children rest
unfolding decode_children encode_child to_first
decode_children-encode_child [] rest = refl
decode_children-encode_child (b ∷ child) rest =
    ap (to_first b) (decode_children-encode_child child rest)

decode_children-encode_children :
    (children : List Bytes) → decode_children (encode_children children) ≡ children
unfolding encode_children decode_children
decode_children-encode_children [] = refl
decode_children-encode_children (child ∷ children) =
    decode_children-encode_child child (encode_children children)
    ∙ ap (λ r. child ∷ r) (decode_children-encode_children children)

unfoldable decode_numbers : Bytes → Option (BlockData ℕ ℕ)
unfolding decode_children
decode_numbers (block ∷ state ∷ depth ∷ zero ∷ bytes) = some (record {
  block = block;
  state = state;
  depth = depth;
  children = decode_children bytes;
  is_canon = false;
})
decode_numbers (block ∷ state ∷ depth ∷ suc n ∷ bytes) = some (record {
  block = block;
  state = state;
  depth = depth;
  children = decode_children bytes;
  is_canon = true;
})
decode_numbers _ = none

unfoldable encode_numbers : BlockData ℕ ℕ → Bytes
unfolding encode_children
encode_numbers d =
    d.block ∷ d.state ∷ d.depth ∷ (if d.is_canon then 1 else 0) ∷ encode_children d.children

decode_number : Bytes → Option ℕ
decode_number [] = none
decode_number (n ∷ bytes) = some n

abbrev numbers : Encoding ℕ ℕ ℕ ℕ
numbers = record {
  encode_data = encode_numbers;
  decode_data = decode_numbers;
  encode_id = λ id. id;
  decode_id = λ id. some id;
  encode_depth = λ n. n ∷ [];
  encode_key = λ n. n ∷ [];
  encode_auxiliary = λ n. n ∷ [];
  decode_auxiliary = decode_number;
  key_head = 0 ∷ [];
  key_genesis = 1 ∷ [];
}

decode_numbers_of :
    (block state depth : ℕ) (children : List Bytes) (is_canon : Bool)
    → decode_numbers
        (block ∷ state ∷ depth ∷ (if is_canon then 1 else 0) ∷ encode_children children)
      ≡ some (record {
        block = block;
        state = state;
        depth = depth;
        children = children;
        is_canon = is_canon;
      })
unfolding decode_numbers
decode_numbers_of block state depth children true =
    ap
      (λ cs.
        some
          (record { block = block; state = state; depth = depth; children = cs; is_canon = true }))
      (decode_children-encode_children children)
decode_numbers_of block state depth children false =
    ap
      (λ cs.
        some
          (record { block = block; state = state; depth = depth; children = cs; is_canon = false }))
      (decode_children-encode_children children)

decode_numbers-encode_numbers : (d : BlockData ℕ ℕ) → decode_numbers (encode_numbers d) ≡ some d
unfolding encode_numbers
decode_numbers-encode_numbers d = decode_numbers_of d.block d.state d.depth d.children d.is_canon

numbers-IsEncoding : IsEncoding numbers
numbers-IsEncoding = record {
  read_data = decode_numbers-encode_numbers;
  read_id = λ id. refl;
  keys_differ = refl;
}

abbrev id_of : ℕ → Bytes
id_of n = n ∷ []

abbrev first : RocksBackend Changes
first = record {
  db = (genesis_settlement log numbers (id_of 7) 7 9 []).changes;
  head = id_of 7;
  genesis = id_of 7;
}

created : open_or_create log numbers id_of (λ b. false) (ok (7, 9)) [] ≡ ok first
unfolding open_or_create open_found create_genesis genesis_settlement commit new insert_block change
    insert_change insert_canon_depth_mapping set_head set_genesis fetch_head fetch_genesis
    decode_stored find_change column_eq
created = refl

-- The database of the block 7 opens again, though what would create a new one fails.
open_or_create_again_example :
    open_or_create log numbers id_of (λ b. false) (err Error.not_exist) first.db ≡ ok first
open_or_create_again_example =
    open_or_create_again log numbers log-IsDatabase numbers-IsEncoding id_of (λ b. false)
      (ok (7, 9)) (err Error.not_exist) [] first created

abbrev genesis_data : BlockData ℕ ℕ
genesis_data = record { block = 7; state = 9; depth = 0; children = []; is_canon = true }

abbrev pushed : Bytes → RocksSettlement Changes → RocksSettlement Changes
pushed child s =
    change Column.blocks (id_of 7)
      (some (encode_numbers (record genesis_data { children = child ∷ [] }))) s

abbrev both : RocksSettlement Changes
both = pushed (id_of 2) (pushed (id_of 1) (new log numbers first.db))

stored : fetch_block_data log numbers first.db (id_of 7) ≡ ok (some genesis_data)
unfolding genesis_settlement new insert_block change insert_change insert_canon_depth_mapping
    set_head set_genesis fetch_block_data decode_stored find_change column_eq decode_numbers
    encode_numbers encode_children decode_children
stored = refl

one_pushed :
    push_child log numbers (id_of 7) (id_of 1) (new log numbers first.db)
    ≡ ok (pushed (id_of 1) (new log numbers first.db))
unfolding genesis_settlement new insert_block change insert_change insert_canon_depth_mapping
    set_head set_genesis fetch_block_data decode_stored find_change column_eq decode_numbers
    encode_numbers encode_children decode_children push_child modify_data
one_pushed = refl

two_pushed :
    push_child log numbers (id_of 7) (id_of 2) (pushed (id_of 1) (new log numbers first.db))
    ≡ ok both
unfolding genesis_settlement new insert_block change insert_change insert_canon_depth_mapping
    set_head set_genesis fetch_block_data decode_stored find_change column_eq decode_numbers
    encode_numbers encode_children decode_children push_child modify_data
two_pushed = refl

both_written : commit log numbers both ≡ ok (none, both.changes ++ first.db)
unfolding commit new change
both_written = refl

-- Of the children 1 and 2 that are pushed to the block 7, the first is lost.
push_child_lost_example :
    fetch_block_data log numbers (both.changes ++ first.db) (id_of 7)
    ≡ ok (some (record genesis_data { children = id_of 2 ∷ [] }))
push_child_lost_example =
    push_child_lost log numbers log-IsDatabase numbers-IsEncoding first.db
      (both.changes ++ first.db) (id_of 7) (id_of 1) (id_of 2) genesis_data
      (pushed (id_of 1) (new log numbers first.db)) both none stored one_pushed two_pushed
      both_written
