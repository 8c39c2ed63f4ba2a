-- ===== src/FormalReview.antt =====
-- agent/workflows/formal_review: the automated review of an after-sales ticket.
pub mod Contracts
pub mod Score
pub mod Context
pub mod Confidence
pub mod Requirement
pub mod Sop
pub mod Synthesis
pub mod Graph
pub mod Evaluate
pub mod Workflow
