-- ===== src/Coordinator/Kept.antt =====
-- internal/agent/recovery/coordinator.go: what the resumption of an operation leaves of the manifests.
use nur_proxy.Base.{string_eq}
use nur_proxy.RecoveryModel.OperationState.{OperationState, operation_state_eq}
use nur_proxy.Coordinator.{Coordinator}
