-- ===== src/Graphql.antt =====
-- internal/adapters/graphql: the guards, the models, the loaders, what a request carries, the presenter of
-- errors, and the resolvers.
pub mod Guards
pub mod Mappers
pub mod Loaders
pub mod Request
pub mod Presenter
pub mod Resolvers
