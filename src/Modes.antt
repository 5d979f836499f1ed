-- ===== src/Modes.antt =====
-- pkg/search/factory.go and pkg/search/mode/factory.go: the engines that a configuration selects.
pub mod Config
pub mod Pages
pub mod Types
pub mod Build
pub mod Group
mod Usable
mod Order
pub mod Sample
mod Tests
