-- ===== src/RecoveryModel.antt =====
-- internal/shared/recoverymodel/model.go: the data of the recovery subsystem.
pub mod Code
pub mod Severity
pub mod States
pub mod Ownership
pub mod OwnershipConfidence
pub mod RepairScope
pub mod ResolutionReason
pub mod Action
pub mod OperationState
pub mod RequestSource
pub mod Report
pub mod Diagnostic
pub mod Requests
mod Tests
