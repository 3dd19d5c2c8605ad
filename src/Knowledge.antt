-- ===== src/Knowledge.antt =====
-- navigator/knowledge: the site graph.
pub mod SiteGraph
