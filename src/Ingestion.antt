-- ===== src/Ingestion.antt =====
-- application/knowledge_ingestion: from the blocks of a parsed document to chunks for retrieval.
pub mod Models
pub mod Tokens
pub mod Split
pub mod Parts
pub mod Lines
pub mod Units
pub mod Pieces
pub mod Oversized
pub mod Chunker
pub mod Chunk
pub mod Merging
pub mod Selecting
pub mod Rounds
pub mod Candidates
pub mod Kept
pub mod Rows
pub mod Chunks
pub mod Headings
pub mod Terms
pub mod Classify
pub mod Allowed
