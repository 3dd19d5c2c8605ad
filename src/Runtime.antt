-- ===== src/Runtime.antt =====
-- The package navigator/agent_runtime.
pub mod Models
pub mod Watchdog
pub mod Lock
pub mod Realtime
pub mod Pace
pub mod Delegate
pub mod Progress
pub mod Backchannel
pub mod Recorded
pub mod Compiler
pub mod DemoGraph
pub mod Interaction
pub mod StepExecutor
pub mod Worker
pub mod Cancellation
pub mod Orchestrator
