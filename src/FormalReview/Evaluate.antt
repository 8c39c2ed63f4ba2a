-- ===== src/FormalReview/Evaluate.antt =====
-- formal_review/evaluators.py: the assessments made of what the tools returned.
pub mod Citation
pub mod Hit
pub mod Policy
pub mod Trust
pub mod Evidence
pub mod Visual
