-- ===== src/Db.antt =====
-- The shared state of the API and the worker: the tables (`Schema`), the SQL statements on them
-- (`Query`) and the laws of the statements (`Laws`).
pub mod Schema
pub mod Query
pub mod Laws
pub mod Counts
pub mod Local
