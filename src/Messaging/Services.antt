-- ===== src/Messaging/Services.antt =====
-- The use cases: src/dizzchat/contexts/messaging/application/services. Each takes the ports that
-- its class is constructed with; the clock's reading is an argument of the call.
pub mod ReplayMessages
pub mod GetConversationHistory
pub mod PostMessage
pub mod MessageExchange
pub mod EnsureConversationAccess
pub mod CreateConversation
pub mod DeleteConversation
pub mod RenameConversation
pub mod RestoreConversation
pub mod AddParticipant
pub mod RemoveParticipant
pub mod ListConversations
pub mod ListParticipants
pub mod Kept
pub mod Tables
pub mod Directory
