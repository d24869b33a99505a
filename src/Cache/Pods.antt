-- ===== src/Cache/Pods.antt =====
-- The pod handlers of pkg/scheduler/cache/event_handlers.go, and the filter in front of them.
use text.Mathlib.Text.{◌==◌ as same_text}
use kube_arbitrator.Common.{
  Bool, true, false, Option, none, some, String, string_key, Outcome, ok, ◌>>=◌, text_is_empty,
  ◌&&◌, if◌then◌else◌,
}
use kube_arbitrator.Common.Map.{lookup, insert}
use kube_arbitrator.Api.Objects.{Pod, PodPhase, pod_pending, pod_running}
use kube_arbitrator.Api.Status.{TaskStatus, succeeded, failed}
use kube_arbitrator.Api.TaskInfo.{TaskInfo, new_task_info}
use kube_arbitrator.Api.JobInfo.{add_task_info, delete_task_info}
use kube_arbitrator.Api.NodeInfo.{add_task, remove_task}
use kube_arbitrator.Cache.Store.{Cache, Object, pod_object, tombstone, job_or_new, node_or_new}

-- `isTerminated`.
unfoldable pub is_terminated : TaskStatus → Bool
is_terminated succeeded = true
is_terminated failed = true
is_terminated _ = false

abbrev pub has_phase_pending : PodPhase → Bool
has_phase_pending pod_pending = true
has_phase_pending _ = false

abbrev pub has_phase_running : PodPhase → Bool
has_phase_running pod_running = true
has_phase_running _ = false

-- `FilterFunc` of the pod informer.
unfoldable pub is_watched : String → Object → Bool
is_watched scheduler_name (pod_object pod) =
    if same_text pod.scheduler_name scheduler_name && has_phase_pending pod.phase
    then true
    else has_phase_running pod.phase
is_watched scheduler_name _ = false

-- The job's part of `addPod`.
unfoldable pub add_to_job : Cache → TaskInfo → Outcome Cache
unfolding job_or_new
add_to_job sc pi = if text_is_empty pi.job then ok sc else do
  job ← delete_task_info (job_or_new pi.job sc.jobs) pi
  ok (record sc { jobs = insert pi.job (add_task_info job pi) sc.jobs })

-- The node's part of `addPod`.
unfoldable pub add_to_node : Cache → TaskInfo → Outcome Cache
unfolding node_or_new is_terminated
add_to_node sc pi = if text_is_empty pi.node_name then ok sc else do
  without ← remove_task (node_or_new pi.node_name sc.nodes) pi
  node ← if is_terminated pi.status then ok without else add_task without pi
  ok (record sc { nodes = insert pi.node_name node sc.nodes })

-- `addPod`.
unfoldable pub add_pod : Cache → Pod → Outcome Cache
unfolding add_to_job add_to_node
add_pod sc pod = do
  with_job ← add_to_job sc (new_task_info pod)
  add_to_node with_job (new_task_info pod)

-- The job's part of `deletePod`.
unfoldable pub delete_from_job : Cache → TaskInfo → Outcome Cache
delete_from_job sc pi = if text_is_empty pi.job then ok sc else elim (lookup pi.job sc.jobs) [
  | none ↦ ok sc
  | some job ↦ do
    job' ← delete_task_info job pi
    ok (record sc { jobs = insert pi.job job' sc.jobs })
]

-- The node's part of `deletePod`.
unfoldable pub delete_from_node : Cache → TaskInfo → Outcome Cache
delete_from_node sc pi =
    if text_is_empty pi.node_name then ok sc else elim (lookup pi.node_name sc.nodes) [
      | none ↦ ok sc
      | some ni ↦ do
        node ← remove_task ni pi
        ok (record sc { nodes = insert pi.node_name node sc.nodes })
    ]

-- `deletePod`.
unfoldable pub delete_pod : Cache → Pod → Outcome Cache
unfolding delete_from_job delete_from_node
delete_pod sc pod = do
  without_job ← delete_from_job sc (new_task_info pod)
  delete_from_node without_job (new_task_info pod)

-- `updatePod`.
unfoldable pub update_pod : Cache → Pod → Pod → Outcome Cache
unfolding add_pod delete_pod
update_pod sc old_pod new_pod = do without ← delete_pod sc old_pod; add_pod without new_pod

-- The type assertion `obj.(*v1.Pod)`, and the type switch of `DeletePod`.
abbrev pub as_pod : Object → Option Pod
as_pod (pod_object pod) = some pod
as_pod _ = none

abbrev pub deleted_pod : Object → Option Pod
deleted_pod (pod_object pod) = some pod
deleted_pod (tombstone obj) = as_pod obj
deleted_pod _ = none

-- `AddPod`.
unfoldable pub handle_add_pod : Cache → Object → Outcome Cache
unfolding add_pod
handle_add_pod sc obj = elim (as_pod obj) [ none ↦ ok sc | some pod ↦ add_pod sc pod ]

-- `UpdatePod`.
unfoldable pub handle_update_pod : Cache → Object → Object → Outcome Cache
unfolding update_pod
handle_update_pod sc old_obj new_obj = elim (as_pod old_obj) [
  | none ↦ ok sc
  | some old_pod ↦ elim (as_pod new_obj) [
    | none ↦ ok sc
    | some new_pod ↦ update_pod sc old_pod new_pod
  ]
]

-- `DeletePod`.
unfoldable pub handle_delete_pod : Cache → Object → Outcome Cache
unfolding delete_pod
handle_delete_pod sc obj = elim (deleted_pod obj) [ none ↦ ok sc | some pod ↦ delete_pod sc pod ]
