-- ===== src/Ddl.antt =====
-- The session's registries of table definitions.
pub mod Registry
pub mod Names
pub mod ColumnTypes
pub mod ForeignKeys
pub mod TypeRegistry
pub mod References
pub mod CreateTable
pub mod Tables
pub mod AlterTable
pub mod AddColumn
pub mod Serial
mod Tests
