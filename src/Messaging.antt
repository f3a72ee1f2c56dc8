-- ===== src/Messaging.antt =====
-- src/dizzchat/contexts/messaging: conversations, their members and their messages.
pub mod Conversation
pub mod Message
pub mod Ports
pub mod Services
pub mod Outbound
