-- ===== src/Memory.antt =====
-- internal/adapters/storage/memory: the store in memory and its repositories.
pub mod Store
pub mod WellFormed
pub mod Paginate
pub mod Posts
pub mod Groups
pub mod Comments
