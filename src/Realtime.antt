-- ===== src/Realtime.antt =====
-- A replica's live sockets: src/dizzchat/contexts/messaging/infrastructure/inbound/api/realtime,
-- with its Redis adapters.
pub mod ConnectionManager
pub mod Subscriber
pub mod ConversationRegistry
pub mod RateLimiter
pub mod Websocket
pub mod Wiring
pub mod Lifespan
pub mod Protocol
pub mod MessageCodec
pub mod FanOut
