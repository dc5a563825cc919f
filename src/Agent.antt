-- ===== src/Agent.antt =====
-- crates/agent/src: the instance state machine, what it leaves on the host, and the shell round it.
pub mod Machine
pub mod Host
pub mod Supervisor
pub mod Replay
pub mod Catalog
pub mod Setup
pub mod Wait
pub mod Quarantine
pub mod Config
pub mod Start
pub mod Runner
pub mod Telemetry
pub mod Instances
pub mod Session
