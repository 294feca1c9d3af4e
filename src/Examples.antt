-- ===== src/Examples.antt =====
-- Concrete data: a codec for identifiers and one for cursors, stores, and a short history of requests.
mod Codec
mod Database
mod Postgres
mod Sessions
mod Bus
mod Domain
mod Memory
mod Services
mod Events
mod Config
mod Guards
mod Graphql
mod Di
mod Requests
