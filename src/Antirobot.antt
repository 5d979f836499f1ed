-- ===== src/Antirobot.antt =====
-- pkg/antirobot: the limiter of requests to pages that block robots.
mod Limiter
mod Results
mod Searcher
mod FirstAnswer
mod History
mod Bounds
mod Tests
mod SearcherTests
unfoldable pub use Limiter.*
unfoldable pub use Results.*
unfoldable pub use Searcher.*
