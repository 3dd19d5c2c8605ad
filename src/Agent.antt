-- ===== src/Agent.antt =====
-- navigator/agent: the parts of the call graph that need no outside service.
pub mod Schedule
pub mod SemanticCache
