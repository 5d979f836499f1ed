-- ===== src/Dashboard.antt =====
-- pkg/dashboard/sources.go: the sources and the summary that the dashboard shows.
mod Sources
mod Catalog
mod Summary
mod Verdict
mod Counted
mod Joins
mod Shown
mod Active
mod Agree
mod AgreeOne
mod AgreePool
mod Running
mod Tests
unfoldable pub use Sources.*
unfoldable pub use Catalog.*
unfoldable pub use Summary.*
