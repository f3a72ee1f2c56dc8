-- ===== src/Http.antt =====
-- The HTTP interface: src/dizzchat/shared/infrastructure/inbound/api, the `inbound/api` packages of
-- both contexts, and the routes that src/dizzchat/app.py registers.
pub mod Routes
pub mod Responses
pub mod Schemas
pub mod Environment
pub mod Controllers
pub mod Application
pub mod Transactions
pub mod Requests
