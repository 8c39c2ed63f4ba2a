-- ===== src/FormalReview/Graph/Sound.antt =====
-- Every superstep of the review graph keeps `IsSound`, node by node.
pub mod Read
pub mod Reason
pub mod Gate
pub mod Write
pub mod Steps
