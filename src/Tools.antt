-- ===== src/Tools.antt =====
-- mcp/tool_search.go: the handler of the tool smartsearch.
mod Types
mod Enrich
mod Filter
mod Finish
mod WebSearch
mod Security
mod Fetch
mod Safe
mod Cases
mod Tests
mod FetchTests
mod Again
mod Fetched
mod Bounded
mod Answers
mod Kept
mod Repeated
unfoldable pub use Types.*
unfoldable pub use Enrich.*
unfoldable pub use Filter.*
unfoldable pub use Finish.*
unfoldable pub use WebSearch.*
unfoldable pub use Security.*
unfoldable pub use Fetch.*
