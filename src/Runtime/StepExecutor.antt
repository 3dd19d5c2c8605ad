-- ===== src/Runtime/StepExecutor.antt =====
-- navigator/agent_runtime/execution/demo_step_executor.py: one `DemoStep` with its safety gate,
-- visitor input, retries and recovery.
mod Defs
pub mod Placeholder
pub mod Gate
pub mod Sound
pub mod Retries
pub mod Outcome
mod Tests
unfoldable pub use Defs.*
