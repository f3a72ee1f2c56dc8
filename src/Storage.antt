-- ===== src/Storage.antt =====
-- The tables and the unit of work. Row types are those of
-- src/dizzchat/contexts/*/infrastructure/outbound/persistence/models; a table holds its rows, the
-- newest first. A statement that a repository builds is read as the filter, the sort and the limit
-- that it states; a constraint that a model declares refuses the row that breaks it.
pub mod Rows
pub mod Session
pub mod RefreshTokens
pub mod Users
pub mod Messages
pub mod Conversations
