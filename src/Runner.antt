-- ===== src/Runner.antt =====
-- src/lifecycle/runner: the life of one worker.
pub mod Blob
pub mod Buffers
pub mod Connection
pub mod Sync
pub mod Messages
pub mod Providers
pub mod Runtime
pub mod Scenarios
pub mod StateMachine
pub mod Workers
