-- ===== src/Llm.antt =====
-- backend/app/adapters/llm: providers, their keys, and the fallback chain.
pub mod KeyPool
pub mod Chain
