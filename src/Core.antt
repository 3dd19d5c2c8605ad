-- ===== src/Core.antt =====
-- The package navigator/core.
pub mod KeyPool
