-- ===== src/Retrieval.antt =====
-- retrieval: the filters that every channel shares, and the fusion of their rankings.
pub mod Filters
pub mod Plans
pub mod Rrf
pub mod Fused
