-- ===== src/Sql.antt =====
-- The modules of src/sql that the session consults.
pub mod Regex
pub mod Translate
pub mod Environment
pub mod Stabilization
pub mod Catalog
pub mod Text
pub mod Identifier
pub mod Savepoint
pub mod Locks
pub mod Split
pub mod Scan
pub mod SearchPath
pub mod LobIndex
pub mod LockQuery
pub mod Classifier
pub mod Deallocate
mod Tests
