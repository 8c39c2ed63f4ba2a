-- ===== src/FormalReview/Graph.antt =====
-- formal_review/graph.py: the nodes of the review graph, their routing and its execution.
pub mod State
pub mod Load
pub mod Decide
pub mod Java
pub mod Request
pub mod Submit
pub mod Resume
pub mod Run
pub mod Gate
pub mod Approved
pub mod Sound
pub mod Reach
pub mod Progress
pub mod Rank
pub mod Routine
pub mod Outcome
