-- ===== src/Resilience.antt =====
-- infrastructure/resilience.py: the circuit breaker that the clients of services share.
pub mod Circuit
pub mod Consistent
pub mod Probe
