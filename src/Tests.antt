-- ===== src/Tests.antt =====
-- The theorems at concrete inputs.
mod MemGuard
mod Thread
mod Database
mod Factory
mod Reader
mod Handlers
mod Log
mod AsioHandler
mod RabbitMq
mod Strings
