-- ===== src/Agent.antt =====
-- internal/agent: the tool loop of one prompt.
pub mod Messages
pub mod History
pub mod Truncate
pub mod Tools
pub mod Batch
pub mod Think
pub mod Loop
pub mod Compact
pub mod Explore
pub mod Repair
pub mod Drift
