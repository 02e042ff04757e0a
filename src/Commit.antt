-- ===== src/Commit.antt =====
-- The authoritative commit of gamesvr
-- (server/internal/farm/infrastructure/committer_mysql.go): one transaction per command.
pub mod Rows
pub mod Assets
pub mod Events
pub mod FarmTx
pub mod EconomyTx
pub mod Command
pub mod Fence
pub mod History
