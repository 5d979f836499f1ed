-- ===== src/Telemetry.antt =====
-- pkg/telemetry/store.go: what the dashboard is told of a source by its latest calls.
mod ErrorKind
pub mod Store
mod Recent
mod Totals
mod Days
mod Percentile
pub mod Health
mod Streak
mod State
mod Pause
mod Source
mod Tests
mod StoreTests
unfoldable pub use Percentile.*
unfoldable pub use Health.*
