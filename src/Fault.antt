-- ===== src/Fault.antt =====
-- crates/fault: the contract that master, agent and plugins share.
pub mod State
pub mod Protocol
pub mod Events
pub mod Params
pub mod Manifest
pub mod Wire
pub mod Digest
pub mod Catalog
