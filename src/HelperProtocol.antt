-- ===== src/HelperProtocol.antt =====
-- internal/shared/helperprotocol/types.go: the data of the privileged helper's protocol.
pub mod HelperAction
pub mod LogicalTarget
pub mod JournalState
pub mod Transitions
pub mod RollbackCoverage
pub mod AuthorizationKind
pub mod MessageType
pub mod ErrorCode
