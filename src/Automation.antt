-- ===== src/Automation.antt =====
-- navigator/automation: the parts that need no browser.
pub mod Tickets
pub mod Guardrail
pub mod Episode
pub mod History
pub mod Segment
