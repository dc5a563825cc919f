-- ===== src/Master.antt =====
-- crates/master: the control plane.
pub mod Catalog
pub mod Registry
pub mod Sessions
pub mod Experiment
pub mod Dispatch
pub mod Session
pub mod Management
pub mod Config
pub mod Server
