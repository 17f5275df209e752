-- ===== src/Tests.antt =====
-- The examples: the theorems applied to sample rows.
mod Samples
pub mod Services
pub mod Queue
pub mod Texts
pub mod Admin
pub mod Tables
