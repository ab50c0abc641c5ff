-- ===== src/Session.antt =====
-- internal/session/session.go: sessions stored as lines of JSON.
pub mod Log
pub mod Replay
pub mod Store
pub mod Append
pub mod Repair
pub mod Lines
pub mod Codec
pub mod Arrays
pub mod Replayed
pub mod Coherence
pub mod Deltas
pub mod Saves
pub mod Writers
pub mod Settled
pub mod Torn
pub mod Faults
pub mod Shared
pub mod Crashes
pub mod Paired
pub mod Runtime
pub mod Carried
