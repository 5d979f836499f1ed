-- ===== src/ApiPool.antt =====
-- pkg/search/apipool/apipool.go: the search engine that rotates over providers and their keys.
mod Types
mod Retry
mod Rotate
pub mod Weights
pub mod Fallback
pub mod Ending
pub mod Termination
pub mod Total
mod Tests
unfoldable pub use Types.*
unfoldable pub use Retry.*
unfoldable pub use Rotate.*
