-- ===== src/Lib.antt =====
-- Shasper is a beacon chain of Ethereum 2.0. This library models its beacon crate, beacon/src: the
-- state transition that executes blocks, the genesis, and the builder of blocks. Around it, it models
-- the choice of a head (blockchain/lmd-ghost), the pool of attestations (blockchain/src/pool.rs), the
-- serialisation (utils/ssz), the database of blocks (blockchain/common/rocksdb), and the Casper pallet
-- of another chain (substrate/casper/pallet).
--
-- How the parts interact. A block goes to `execute_block` (beacon/src/lib.rs, Builder.antt), which
-- calls `state_transition` (executive/transition/mod.rs, Executive/Transition.antt): it advances the
-- state slot by slot, with the epoch processing at the last slot of each epoch, and then runs the
-- handlers of the block. All of them read and write one `BeaconState` (Types/State.antt).
--
-- - Prelude: lists, tests and 64-bit words. Addition, subtraction and multiplication of `u64` wrap, as
--   in a release build; a division by a number that may be 0 panics.
-- - Types: beacon/src/types and `BeaconState`. A byte array is a list of numbers.
-- - Results: what a call does: it returns a value or an error, panics, or never ends. Outcome:
--   beacon/src/error.rs, and the results with its errors. Outcome/Ends has the rules for calls that end.
-- - Config: beacon/src/config.rs. The hash function and the tree hash of the state and the blocks stand
--   for libraries: they are the parameter `Digest`, whose one hypothesis, `IsDigest`, is that a digest
--   has 32 bytes. The signature scheme is the parameter `BlsConfig`.
-- - Utils: beacon/src/utils/mod.rs and consts.rs. The loop of `integer_squareroot` has fuel `n + 1`:
--   its `x` falls in every round.
-- - Justifier: beacon/src/components/justification.rs.
-- - Executive: beacon/src/executive. A method on `&mut self` is a function from the state to an outcome
--   and a state (Executive/Monad), so that an error comes with what was written before it. A step that
--   computes a new state as a whole (`commit`) leaves the old one where it fails.
--   Accessors, Predicates and Mutators are helpers/; Epoch is transition/per_epoch; Header and
--   Operations are transition/per_block; Transition is transition/mod.rs; Assignment is assignment.rs
--   and choice.rs. Keeps, Terminates and Runs are the rules by which proofs go through the handlers;
--   Stable says once which writes the handlers make, and Shape what the state looks like.
--   The loop of `process_slots` has a round of fuel for each slot up to the target. The loop of
--   `beacon_proposer_index` has 2^64 rounds, after which its counter is back where it began: running
--   out of them means that it never ends.
-- - Ghost: blockchain/lmd-ghost/src/archive.rs. The store of blocks and the executor are parameters; the
--   hypothesis on the store, `IsTree`, is that its blocks are a tree. `ancestor_at` has as much fuel as
--   the depth of its block, `head` as the height of the tree. Ghost/Importer is the import of a block,
--   which uses the executor's votes; Ancestors, Tally, Heaviest, Overlay and Imports hold the proofs.
-- - Pool: blockchain/src/pool.rs. A map is a list of its entries.
-- - Ssz: utils/ssz/src; Series is series.rs, Lists is utils.rs and the lists and arrays of fixed.rs and
--   variable.rs, Bits their bits. A slice out of range panics. The loops of `decode_list` have a round
--   of fuel for each byte, which is enough where an item has a byte; Ending says what happens where not.
-- - Pallet: substrate/casper/pallet/src/lib.rs, with its storage as one record. Signatures, the encoding,
--   hashes of blocks and the pool of transactions are the parameter `Host`. Session is the handler of a
--   new session, Offchain the worker; the other modules hold the proofs.
-- - Rocks: blockchain/common/rocksdb/src. The database and the codec are parameters; the hypotheses on
--   them, `IsDatabase` and `IsEncoding`, are that a batch that was written is read back, and what was
--   encoded decoded. Settlement collects the changes of an operation, Backend has the queries.
-- - Chain: blockchain/runtime/src/lib.rs and the executor of blockchain/src/lib.rs, which fills the
--   interface of Ghost/Importer with the functions of the beacon crate.
-- - Genesis: beacon/src/genesis.rs. Builder: beacon/src/lib.rs.
-- - Tests: the theorems at work on concrete inputs.
--
-- Not modelled: components/reward.rs, which nothing calls; utils/serde.rs and the codec derives, which
-- are glue; the caches of `BeaconExecutive`, which are never read; the derive macros of utils/ssz; the
-- network, the command line and the web interface, which are input and output.
pub mod Prelude
pub mod Types
pub mod Outcome
pub mod Results
pub mod Config
pub mod Utils
pub mod Executive
pub mod Justifier
pub mod Genesis
pub mod Builder
pub mod Chain
pub mod Pallet
pub mod Ssz
pub mod Ghost
pub mod Pool
pub mod Rocks
mod Tests
