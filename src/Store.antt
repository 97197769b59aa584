-- ===== src/Store.antt =====
-- internal/store: the errors of the data layer, the tables, and a connection to the database with
-- its transactions. PostgreSQL itself is not under the repository: what the code relies on is
-- written out in Session (a failed statement changes nothing, a transaction that does not commit is
-- undone, a transaction in which a statement failed runs no more of them and cannot commit).
pub mod Errors
pub mod Schema
pub mod Session
pub mod Transactions
pub mod Atomic
pub mod Keeps
