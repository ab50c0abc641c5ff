-- ===== src/Tests.antt =====
-- The theorems at concrete inputs: their hypotheses hold there.
mod Tools
mod Llm
mod Policy
mod Goal
mod Workflow
mod Agent
mod Loop
mod Codec
mod Config
mod Ext
mod Compact
mod Permstore
mod Session
