-- ===== src/Engines.antt =====
-- pkg/search/engine: the engines that read the result pages of search sites.
mod Session
mod Blocked
mod Simple
mod Duck
mod Backoff
mod Cooldown
mod Polite
mod Tests
unfoldable pub use Session.*
unfoldable pub use Blocked.*
unfoldable pub use Simple.*
unfoldable pub use Duck.*
