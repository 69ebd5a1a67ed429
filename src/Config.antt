-- ===== src/Config.antt =====
-- server/config_server.c: the configuration socket. Config/Changes has the change index, Config/PutTable
-- the command that sends a table, and Config/Commands the dispatch of a line.
pub mod Changes
pub mod Reports
pub mod PutTable
pub mod Lines
pub mod Commands
mod Tests
