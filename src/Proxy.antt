-- ===== src/Proxy.antt =====
-- internal/proxy: the request path.
pub mod Endpoint
pub mod Runtime
pub mod Rotation
pub mod Cooling
pub mod Selection
pub mod InFlight
pub mod Classify
pub mod State
pub mod Refresh
pub mod Attempt
pub mod Response
pub mod ErrorBody
pub mod Loop
pub mod Kept
pub mod Handled
pub mod Exchange
pub mod Prepared
pub mod Once
pub mod Penalties
pub mod Choice
pub mod Shown
pub mod Dedup
pub mod Leaders
pub mod Waiters
pub mod UsageLimit
pub mod Resets
pub mod Resolver
pub mod Wishes
pub mod Trace
pub mod Stats
pub mod Sums
pub mod Renames
pub mod Traces
pub mod Request
pub mod Served
mod Tests
mod TableTests
