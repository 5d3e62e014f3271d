-- ===== src/Tests.antt =====
-- The theorems at concrete inputs, and runs of the definitions.
mod AlertsTests
mod BudgetTests
mod SendTests
mod LiquidationTests
mod LiquidatingTests
mod SubmitTests
mod CycleTests
mod CrankTests
mod ServicesTests
mod LeaderTests
mod RpcTests
