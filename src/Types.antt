-- ===== src/Types.antt =====
-- The data types of beacon/src/types and the state of beacon/src/executive/mod.rs.
-- `H256`, `H768`, keys, signatures and fork versions are byte arrays; `MaxVec` and `VecArray` are
-- lists (a `VecArray` has a fixed length, which `State.IsShaped` states); the field that the source
-- names `data`, a reserved word, is `att_data` in an attestation and `deposit_data` in a deposit.
mod Misc
mod Operation
mod Blocks
mod State
pub use Misc.*
pub use Operation.*
pub use Blocks.*
pub use State.*
