-- ===== src/History.antt =====
-- internal/orchestrator/db/recovery.go: the life of a repair operation, as the orchestrator stores it.
pub mod Graph
pub mod Reachable
pub mod Reports
pub mod Walk
pub mod Outcomes
pub mod Store
pub mod Cases
pub mod Advance
pub mod Create
pub mod Decide
pub mod Status
pub mod Latching
pub mod Newest
pub mod Opening
pub mod Follows
pub mod Life
pub mod Restart
mod Tests
