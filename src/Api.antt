-- ===== src/Api.antt =====
-- web/ui/src/shared/api.ts: what a call of the server returns, and web/ui/src/api/*.ts: the calls,
-- each with its method, its path and the query keys that its success makes stale.
pub mod Types
pub mod Fetch
pub mod Torrents
pub mod Admin
pub mod Activity
pub mod Cache
mod Tests
