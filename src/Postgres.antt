-- ===== src/Postgres.antt =====
-- internal/adapters/storage/postgres: the repositories and the transactions over PostgreSQL.
pub mod Sql
pub mod Database
pub mod Posts
pub mod Comments
pub mod Replies
pub mod Rows
pub mod View
pub mod Pages
pub mod Ranking
pub mod Tx
pub mod Bus
pub mod Counting
