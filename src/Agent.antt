-- ===== src/Agent.antt =====
-- internal/agent: the skills, the agents, their cache and executor, and what they ask the model.
pub mod Cache
pub mod Spec
pub mod Executor
pub mod Thinking
pub mod Skills
pub mod Dsl
pub mod Chat
pub mod Pool
pub mod Trigger
pub mod Orchestration
