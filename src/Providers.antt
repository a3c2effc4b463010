-- ===== src/Providers.antt =====
-- src/agent_runtime/llm/openai_compatible.py and src/agent_runtime/llm/mock.py: the model clients
-- that the resilient client calls.
pub mod OpenAi
pub mod Answers
pub mod Mock
pub mod Scripted
