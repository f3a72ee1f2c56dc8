-- ===== src/Tests.antt =====
-- Concrete inputs: tests by evaluation, and the theorems at them.
mod Fixtures
mod Conversations
mod Messages
mod Exchange
mod Realtime
mod Limiter
mod Sockets
mod Accounts
mod Http
mod Migrations
mod Wiring
mod Protocol
mod Lifespan
mod Logging
