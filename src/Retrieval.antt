-- ===== src/Retrieval.antt =====
-- retrieval_v2: the ranking of memories for a query.
pub mod Diversity
pub mod Fusion
pub mod Routing
