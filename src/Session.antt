-- ===== src/Session.antt =====
-- proxy/session.ts, ProxySession: the state of one PostgreSQL client session and its commands.
pub mod State
pub mod Backend
pub mod Layer
pub mod Execute
pub mod Protocol
pub mod Delivery
pub mod Lease
pub mod Appends
pub mod Aborted
pub mod Retry
pub mod Ready
pub mod Sync
pub mod Paging
pub mod Rows
pub mod Lowering
mod Tests
