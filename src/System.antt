-- ===== src/System.antt =====
-- The life of transactions in src/db.rs and src/tx.rs.
pub mod Horizon
pub mod Reading
pub mod Writing
pub mod Fresh
pub mod Freeing
pub mod Undoing
pub mod Steps
pub mod Invariant
pub mod Keeps
pub mod Writers
pub mod Start
pub mod Safety
