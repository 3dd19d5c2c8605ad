-- ===== src/App.antt =====
-- navigator/app: the parts that are not routes.
pub mod Registry
