-- ===== src/Master/Dispatch.antt =====
-- crates/master/src/dispatch.rs. `Switch` holds what the handlers do to one record under the store
-- lock, `Handlers` the dispatcher and its operations.
pub mod Switch
pub mod Marks
pub mod Updates
pub mod Invariant
pub mod Handled
pub mod Accept
pub mod Legibility
pub mod Frames
pub mod Start
pub mod Facts
pub mod Orders
pub mod Salvo
pub mod Startable
pub mod Handlers
pub mod Store
pub mod Listing
pub mod Kept
pub mod Concluded
pub mod Graces
