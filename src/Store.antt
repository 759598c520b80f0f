-- ===== src/Store.antt =====
-- internal/store: the database. `Rows` has its tables, `Exec` the two connection pools and the
-- transactions, and the other modules a file of the package each.
pub mod Tables
pub mod Rows
pub mod Exec
pub mod Sql
pub mod Events
pub mod Issues
pub mod Labels
pub mod Schedule
pub mod Groups
pub mod Auth
pub mod Emails
pub mod Questions
pub mod Responses
pub mod Members
pub mod WellFormed
pub mod Operation
