-- ===== src/Tools.antt =====
-- internal/tools: the diffs that write tools report, and the patches that `apply_patch` takes.
pub mod Diff
pub mod Patch
