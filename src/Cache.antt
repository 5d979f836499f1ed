-- ===== src/Cache.antt =====
-- pkg/cache/sqlite.go: the cache of search results in a SQLite table.
mod Table
mod Methods
mod Keys
mod View
mod Steps
pub mod Hits
pub mod Sample
mod Tests
unfoldable pub use Table.*
unfoldable pub use Methods.*
