-- ===== src/Runtime.antt =====
-- internal/runtime: the deployment's configuration and the components that guard every execution.
-- Times and durations are nanoseconds on a clock that never shows a time before its zero; each
-- operation that reads the clock takes the time as its argument `now`.
pub mod Config
pub mod Circuit
pub mod State
pub mod Metrics
pub mod Slots
pub mod Limiter
pub mod Graceful
pub mod Backoff
