-- ===== src/Consultation.antt =====
-- agent/workflows/consultation.py: an answer from trusted knowledge, or a handoff.
pub mod Flow
pub mod Hits
pub mod Ports
pub mod Handoff
pub mod Rewrite
pub mod Answer
pub mod Reliable
pub mod Served
pub mod Replies
pub mod Order
