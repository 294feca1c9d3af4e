-- ===== src/Domain.antt =====
-- internal/domain: identifiers, errors, posts, comments and pages.
pub mod Errors
pub mod Ids
pub mod Pagination
pub mod Post
pub mod Comment
