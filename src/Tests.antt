-- ===== src/Tests.antt =====
-- The theorems at concrete inputs.
mod Services
mod Agents
mod Caches
mod Records
mod Schedules
mod Access
mod Thoughts
mod Minds
mod Chats
mod Settings
mod Servers
mod Skills
