-- ===== src/Identity.antt =====
-- Accounts and tokens: src/dizzchat/contexts/identity.
pub mod RefreshToken
pub mod TokenService
pub mod AccessTokens
pub mod RefreshAccessToken
pub mod User
pub mod Ports
pub mod Services
