-- ===== src/KeyPool.antt =====
-- pkg/search/provider/keypool.go: the pool of API keys of one provider.
-- A time is a number of nanoseconds since an epoch; the zero `time.Time` is `none`. Every method
-- that reads the clock takes the time as an argument. `none` as a method's result is a run-time
-- panic, an index out of range. The pool's mutex makes a method one step.
mod State
mod Valid
pub mod Create
pub mod Rotation
mod Recovery
pub mod Next
pub mod Marking
pub mod Outcome
mod Tests
unfoldable pub use State.*
pub use Valid.*
