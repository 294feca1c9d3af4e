-- ===== src/Application.antt =====
-- internal/application: transactions, the interfaces of the repositories, and the two services.
pub mod Tx
pub mod Services
pub mod Posts
pub mod Comments
pub mod InMemory
