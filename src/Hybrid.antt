-- ===== src/Hybrid.antt =====
-- pkg/search/hybrid/hybrid.go: several engines at once, and the merge of what they return.
mod RoundRobin
mod State
mod Fair
mod Distribute
mod Best
mod Failed
mod Merge
mod Tests
unfoldable pub use RoundRobin.*
unfoldable pub use State.*
