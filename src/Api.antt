-- ===== src/Api.antt =====
-- internal/api: what the server reads of a request, and what it answers.
pub mod Decimal
pub mod Header
pub mod IfMatch
pub mod Query
pub mod Request
pub mod Response
pub mod Routes
pub mod Handlers
pub mod Server
pub mod Sessions
