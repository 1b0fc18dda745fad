-- ===== src/Database.antt =====
-- database/src: the client, its retries, and the statements that it sends.
pub mod Schema
pub mod Retry
pub mod Batches
pub mod Insert
pub mod Vars
pub mod Split
pub mod Client
pub mod Delete
mod Tests
