-- ===== src/Tests/Mirrors.antt =====
-- A test of the pod informer: a node comes, a pod that waits for it is created, and then it runs.
use kube_arbitrator.Common.{
  ◌≡◌, refl, [], none, some, Option, string_key, Outcome, ok, panic, if◌then◌else◌, String_discrete,
  Bool,
}
use kube_arbitrator.Common.Map.{lookup, insert, remove}
use kube_arbitrator.Api.Objects.{Pod, pod_pending, pod_key, get_controller}
use kube_arbitrator.Api.TaskInfo.{new_task_info}
use kube_arbitrator.Api.Resource.{add, sub, less_equal, new_resource}
use kube_arbitrator.Api.Status.{
  TaskStatus_discrete, get_task_status, allocated_status, validate_status_update, running,
}
use kube_arbitrator.Api.JobInfo.{add_task_info, delete_task_info}
use kube_arbitrator.Api.NodeInfo.{add_task, remove_task, set_node, new_node_info}
use kube_arbitrator.Cache.Store.{Cache, Object, pod_object, node_object, empty_cache}
use kube_arbitrator.Cache.Pods.{is_watched, handle_add_pod, handle_update_pod, handle_delete_pod}
use kube_arbitrator.Cache.Nodes.{handle_add_node}
use kube_arbitrator.Cache.Events.{node_added, step}
use kube_arbitrator.Cache.Mirror.{
  Notice, added, updated, deleted, Filtering, on_pod, Followed, started, node_noted, pod_created,
  pod_changed, is_node_event,
}
use kube_arbitrator.Cache.Mirror.Tasks.{task_at}
use kube_arbitrator.Cache.Mirror.Laws.{shown, Followed-task_at}
use kube_arbitrator.Tests.Data.{pod_named, task_of, node_of_size}

abbrev deliver_first : (Object → Bool) → Notice → Option Notice
deliver_first f (added o) = if f o then some (added o) else none
deliver_first f (deleted o) = if f o then some (deleted o) else none
deliver_first f (updated o n) =
    if f n
    then (if f o then some (updated o n) else some (added n))
    else (if f o then some (deleted o) else none)

abbrev filtering : Filtering
filtering = record {
  deliver = deliver_first;
  deliver_added = λ f o. refl;
  deliver_deleted = λ f o. refl;
  deliver_updated = λ f o n. refl;
}

abbrev cache_of : Outcome Cache → Cache
cache_of (ok sc) = sc
cache_of (panic p) = empty_cache

abbrev waiting : Pod
waiting = record (pod_named "p1") { node_name = ""; phase = pod_pending }

abbrev with_node : Outcome Cache
with_node = step empty_cache (node_added (node_object (node_of_size 4)))

abbrev with_pod : Outcome Cache
with_pod = on_pod filtering "kube-batch" (cache_of with_node) (added (pod_object waiting))

abbrev with_running : Outcome Cache
with_running =
    on_pod filtering "kube-batch" (cache_of with_pod)
      (updated (pod_object waiting) (pod_object (pod_named "p1")))

with_node_lem : with_node ≡ ok (cache_of with_node)
unfolding step handle_add_node lookup
with_node_lem = refl

with_pod_lem : with_pod ≡ ok (cache_of with_pod)
unfolding on_pod is_watched handle_add_pod new_task_info get_controller delete_task_info lookup step
    handle_add_node
with_pod_lem = refl

with_running_lem : with_running ≡ ok (cache_of with_running)
unfolding on_pod is_watched handle_add_pod handle_update_pod handle_delete_pod new_task_info
    get_controller get_task_status delete_task_info add_task_info allocated_status
    validate_status_update add sub less_equal new_resource add_task remove_task set_node
    new_node_info TaskStatus_discrete pod_key String_discrete lookup insert remove step
    handle_add_node
with_running_lem = refl

followed :
    Followed filtering "kube-batch"
      (insert "p1" (pod_named "p1") (insert "p1" waiting []))
      (cache_of with_running)
unfolding lookup insert is_node_event String_discrete
followed =
    pod_changed _ _ _ waiting (pod_named "p1")
      (pod_created _ _ _ waiting (node_noted _ _ _ _ started refl with_node_lem) refl with_pod_lem)
      refl refl with_running_lem

Followed-task_at_example : task_at (cache_of with_running) "job" "p1" ≡ some (task_of "p1" running)
unfolding shown lookup insert new_task_info String_discrete get_controller add get_task_status
    new_resource
Followed-task_at_example =
    Followed-task_at filtering "kube-batch" _ (cache_of with_running) "job" "p1" followed refl
