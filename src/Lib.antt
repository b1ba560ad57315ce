-- ===== src/Lib.antt =====
-- kube-ops-agent: a service that inspects a Kubernetes cluster with agents that a language model
-- drives.
--
-- The parts and how they interact. The scheduler (internal/scheduler) decides when which agents
-- run: in its simple mode an agent is due when its interval has passed since its last run; in its
-- intelligent mode it follows a plan (internal/plan), step by step. It runs an agent through the
-- executor (internal/agent/executor.go), which asks the circuit breaker whether the agent may
-- run, takes a slot of the concurrency controller, gets the agent from the cache
-- (internal/agent/cache.go), tries it up to three times, and enters the outcome in the breaker,
-- the metrics, the state and the history (internal/runtime, internal/operations). The HTTP API
-- (internal/httpapi) reads these, behind its authentication. Thinking plans (internal/reasoning)
-- hold what an agent means to do.
--
-- The agents come from the skill directories (internal/agent/registry.go, dsl.go). A thinking
-- agent (internal/agent/thinking.go) asks the model for commands, runs those that its guards let
-- through, and asks for a report; the adaptive executor (internal/plan/adaptive.go) executes
-- plans within plans. The registry of MCP tools (internal/mcp) connects to servers, finds their
-- tools and calls them. The settings (internal/config) give the runtime its configuration;
-- reports are files (internal/report).
--
-- Files. A record models a struct and keeps its fields' names; a function models a function or a
-- method, in the same words (RecordFailure is record_failure), takes the receiver last and
-- returns the new one. A lock is held for the whole of a method, so a method is one step; where
-- it is not, in WithAgentSlot and in Wait of the rate limiter, the critical sections are the
-- steps.
--
--   Base: names of the libraries, Boolean tests, lists measured by native numbers, and maps as
--     association lists.
--   Runtime/Config: internal/runtime/production.go, ProductionConfig and DefaultConfig.
--   Runtime/Circuit: CircuitBreaker of the same file; Refines and Opens compare it with one
--     circuit per agent.
--   Runtime/Slots: ConcurrencyController, as a step relation on the goroutines with a slot.
--   Runtime/Limiter: RateLimiter, in billionths of a token.
--   Runtime/State: internal/runtime/state.go; Files has Load and Save.
--   Runtime/Metrics: internal/runtime/metrics.go.
--   Runtime/Graceful, Runtime/Backoff: internal/runtime/graceful.go and backoff.go.
--   Agent/Spec: internal/agent/registry.go, Spec and the lookups.
--   Agent/Cache: internal/agent/cache.go.
--   Agent/Executor: internal/agent/executor.go, Execute.
--   Agent/Chat: of the same file the chat functions, the kubectl tool and the choice of the
--     model.
--   Operations: internal/operations/manager.go; Summaries and Enrichment have the summaries.
--   Agent/Orchestration: internal/agent/orchestrator.go, summary.go and a tool of
--     summary_builder.go.
--   Agent/Pool, Agent/Trigger: internal/agent/pool.go and trigger.go.
--   Plan: internal/plan/plan.go.
--   Scheduler: internal/scheduler/scheduler.go.
--   Agent/Skills: internal/agent/registry.go, the walk over the skill directories.
--   Agent/Dsl: internal/agent/dsl.go.
--   Agent/Thinking: internal/agent/thinking.go; Commands has the loop over the commands.
--   Plan/Adaptive: internal/plan/adaptive.go.
--   Httpapi/Auth: internal/httpapi/auth.go.
--   Httpapi/Requests: internal/httpapi/agent_request.go, and of server.go what handleTrigger
--     selects.
--   Httpapi/Queries, Httpapi/Reports, Httpapi/Health: of server.go the handlers of the
--     operations, of the reports, and of health and readiness.
--   Reasoning: internal/reasoning/plan.go.
--   Reasoning/Context: internal/reasoning/context.go.
--   Json: values that a decoder of JSON or YAML made.
--   Mcp/Protocol, Mcp/Client, Mcp/Runtime: internal/mcp/client.go.
--   Mcp/Registry: internal/mcp/registry.go and raw_tool.go.
--   Config/Settings: internal/config/settings.go.
--   Report: internal/report/report.go.
--   Tests: the theorems at concrete inputs.
--
-- Numbers. A time is a number of nanoseconds since the Unix epoch and a duration a number of
-- nanoseconds, both natural; a subtraction of times stops at 0. Where the code keeps a float64, a
-- model keeps an exact fraction: billionths of a token in the limiter, a numerator and a
-- denominator in the averages; durations in the metrics and the history are whole. Sizes and
-- counters are naturals: they stay far below 2 ^ 63, but for the offset and the limit of a
-- history query, which come from a client and whose sum is tested against that bound.
--
-- Arguments. The clock, random numbers, identifiers, the file system's answers, encoding/json,
-- yaml.v3, time.ParseDuration, strconv, processes, net/http, Time.Format, strings.TrimSpace,
-- strings.Split, sort.Slice, net.SplitHostPort, the agent framework and the language model are
-- arguments; what a theorem assumes of one is among its hypotheses.
--
-- Fuel. Only the loop of the cache that makes room runs on fuel: with one round more than there
-- are entries it ends on a valid cache, and its result none stands for a loop that goes on. The
-- executor gives it that much, and its own loop is bounded by the three attempts. The adaptive
-- executor recurses on the levels that its greatest depth leaves. All other functions are
-- structurally recursive.
--
-- Not modelled: what only calls the framework, processes, the file system or a formatter (the
-- building of agents, the routes, logging and the application's wiring), the self-driven agents,
-- which are thinking agents with a context of their own, and the handlers of the metrics, of the
-- MCP tools and of the system status. Executions of the executor that interleave on one
-- environment are left out; the controller's slots are followed under every interleaving.
pub mod Base
pub mod Json
pub mod Runtime
pub mod Agent
pub mod Operations
pub mod Plan
pub mod Scheduler
pub mod Httpapi
pub mod Reasoning
pub mod Mcp
pub mod Config
pub mod Report
pub mod Tests
