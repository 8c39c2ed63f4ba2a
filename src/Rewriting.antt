-- ===== src/Rewriting.antt =====
-- application/rag_query_rewrite.py: whether the knowledge suffices, and the queries otherwise.
pub mod Query
pub mod Prompt
pub mod Decision
pub mod Valid
pub mod Raises
