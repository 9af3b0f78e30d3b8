-- ===== src/Db.antt =====
-- internal/db: the gateway's tables and the statements on them.
pub mod Rows
pub mod Jobs
pub mod Media
pub mod Grabs
