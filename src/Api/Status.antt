-- ===== src/Api/Status.antt =====
-- Task statuses: pkg/scheduler/api/types.go, and pkg/scheduler/api/helpers.go.
use kube_arbitrator.Common.{
  ◌≡◌, ◌↔◌, ◌⊎◌, Bool, true, false, Option, none, String, arith, text_is_empty, text_is_empty_iff,
  if◌then◌else◌, ite, ◌≢◌,
}
use kube_arbitrator.Common.Map.{Key}
use kube_arbitrator.Api.Objects.{
  Pod, pod_pending, pod_running, pod_succeeded, pod_failed, pod_unknown, other_phase,
}

-- The constants `1 << iota` of `TaskStatus`.
pub data TaskStatus : Type 0 where
  pending allocated pipelined binding bound running releasing succeeded failed unknown : TaskStatus

unfoldable pub TaskStatus_discrete : Discrete TaskStatus
TaskStatus_discrete = hlevel

instance abbrev pub status_key : Key TaskStatus
status_key = record { dec = TaskStatus_discrete }

-- A branch on `s == t`.
abbrev pub when_status {ℓ} : {A : Type ℓ} → TaskStatus → TaskStatus → A → A → A
when_status s t a b = ite (TaskStatus_discrete s t) a b

-- `TaskStatus.String`.
unfoldable pub status_string : TaskStatus → String
status_string pending = "Pending"
status_string binding = "Binding"
status_string bound = "Bound"
status_string running = "Running"
status_string releasing = "Releasing"
status_string succeeded = "Succeeded"
status_string failed = "Failed"
status_string _ = "Unknown"

-- The errors that calls return.
pub data Error : Type 0 where
  no_job no_task no_host no_node no_controller not_an_object unsupported_action : Error
  from_client : String → Error

-- `validateStatusUpdate`, which accepts every change.
unfoldable pub validate_status_update : TaskStatus → TaskStatus → Option Error
validate_status_update old_status new_status = none

-- `getTaskStatus`.
unfoldable pub get_task_status : Pod → TaskStatus
get_task_status pod = elim pod.phase [
  | pod_running ↦ if pod.deleted then releasing else running
  | pod_pending ↦
      if pod.deleted then releasing else (if text_is_empty pod.node_name then pending else bound)
  | pod_unknown ↦ unknown
  | pod_succeeded ↦ succeeded
  | pod_failed ↦ failed
  | other_phase p ↦ unknown
]

-- `AllocatedStatus`.
unfoldable pub allocated_status : TaskStatus → Bool
allocated_status bound = true
allocated_status binding = true
allocated_status running = true
allocated_status allocated = true
allocated_status _ = false

-- A pod is releasing exactly when it is running or pending and being deleted. A pending pod that is not
-- being deleted is bound when it names a node, and is pending when it names none, and no other pod
-- is either. The pods that count as allocated are the bound and the running ones.
pub get_task_status-cases :
    (pod : Pod)
    → ((get_task_status pod ≡ releasing)
        ↔ ((pod.deleted ≡ true) × ((pod.phase ≡ pod_running) ⊎ (pod.phase ≡ pod_pending))))
      × ((get_task_status pod ≡ bound)
          ↔ ((pod.phase ≡ pod_pending) × (pod.deleted ≡ false) × (pod.node_name ≢ "")))
      × ((get_task_status pod ≡ pending)
          ↔ ((pod.phase ≡ pod_pending) × (pod.deleted ≡ false) × (pod.node_name ≡ "")))
      × ((allocated_status (get_task_status pod) ≡ true)
          ↔ ((get_task_status pod ≡ bound) ⊎ (get_task_status pod ≡ running)))
unfolding get_task_status allocated_status
get_task_status-cases pod = (
  (λ h. ground arith, λ h. ground arith),
  (
    λ h. ground (arith, text_is_empty_iff pod.node_name),
    λ h. ground (arith, text_is_empty_iff pod.node_name),
  ),
  (
    λ h. ground (arith, text_is_empty_iff pod.node_name),
    λ h. ground (arith, text_is_empty_iff pod.node_name),
  ),
  (λ h. ground arith, λ h. ground arith),
)
