-- ===== src/Policy.antt =====
-- internal/policy: which tools may run, and which paths they may touch.
pub mod Tools
pub mod Path
pub mod Jail
