-- ===== src/Resilience.antt =====
-- src/agent_runtime/llm/resilience.py: the token bucket, the circuit breaker, and the client that
-- retries behind both.
pub mod TokenBucket
pub mod Breaker
pub mod Client
