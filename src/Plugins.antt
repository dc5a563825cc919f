-- ===== src/Plugins.antt =====
-- crates/plugins: the plugins that come with the system.
pub mod NoopMarker
