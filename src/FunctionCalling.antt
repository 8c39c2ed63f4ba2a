-- ===== src/FunctionCalling.antt =====
-- application/function_calling.py: from the model's tool call to an action of the workflow.
pub mod Schema
pub mod Within
pub mod Message
pub mod Decide
pub mod Refused
pub mod Raises
pub mod Decided
