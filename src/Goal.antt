-- ===== src/Goal.antt =====
-- ext/goal: the outer loop that works a goal over many steps.
pub mod Plan
pub mod Report
pub mod State
pub mod Step
pub mod Run
pub mod Parallel
pub mod Spec
