-- ===== src/Tests.antt =====
-- Concrete inputs: a stand-in for PostgreSQL's functions, values, runs and instances of theorems.
pub mod Samples
pub mod Sorting
pub mod Examples
pub mod Orders
pub mod Building
pub mod Misread
pub mod Operating
pub mod Parsing
pub mod Accessing
