-- ===== src/FormalReview/Workflow.antt =====
-- formal_review/workflows.py and tool_ports.py: the two specialists.
pub mod Ports
pub mod Failure
pub mod PolicyState
pub mod Policy
pub mod Evaluated
pub mod Answered
pub mod Nodes
pub mod Handled
pub mod Evidence
pub mod Seen
pub mod Trusted
