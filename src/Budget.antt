-- ===== src/Budget.antt =====
-- src/lib/budget.ts: the spend circuit breaker.
pub mod State
pub mod Window
pub mod Halting
pub mod Admission
pub mod Settlement
pub mod Trace
pub mod Latch
pub mod Caps
pub mod Causes
pub mod Ledger
pub mod Rolling
pub mod Lanes
pub mod Restart
pub mod Landing
pub mod InFlight
pub mod Drift
