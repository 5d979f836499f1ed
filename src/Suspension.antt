-- ===== src/Suspension.antt =====
-- pkg/telemetry/suspension.go: the circuit breaker that the dashboard shows.
mod Policy
mod Laws
mod Tests
unfoldable pub use Policy.*
