-- ===== src/Enhance.antt =====
-- pkg/search/enhance: the scoring of results by their ranks and their text, and the choice among them.
mod Aggregate
mod Floor
mod Mmr
mod Pipeline
mod Academic
mod FloorBounds
mod Choice
mod OneUrl
mod Joined
mod Restored
mod Tests
mod AcademicTests
unfoldable pub use Aggregate.*
unfoldable pub use Floor.*
unfoldable pub use Mmr.*
unfoldable pub use Pipeline.*
