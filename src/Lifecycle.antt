-- ===== src/Lifecycle.antt =====
-- src/lifecycle: the lifecycle manager.
pub mod EndToEnd
pub mod Manager
pub mod Operator
pub mod Requests
pub mod Scenarios
