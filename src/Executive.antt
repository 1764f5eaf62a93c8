-- ===== src/Executive.antt =====
-- beacon/src/executive: `BeaconExecutive`, part by part.
pub mod Monad
pub mod Keeps
pub mod Runs
pub mod Ends
pub mod Terminates
pub mod Stable
pub mod Shape
pub mod Accessors
pub mod Predicates
pub mod Mutators
pub mod Epoch
pub mod Header
pub mod Operations
pub mod Transition
pub mod Assignment
