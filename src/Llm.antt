-- ===== src/Llm.antt =====
-- internal/llm: the client of the model's HTTP gateway.
pub mod Retry
