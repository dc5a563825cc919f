-- ===== src/Proto.antt =====
-- crates/proto/src/lib.rs: the validated hostname. The generated gRPC types are not modelled here.
pub mod Hostname
pub mod Messages
