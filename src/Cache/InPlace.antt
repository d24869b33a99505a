-- ===== src/Cache/InPlace.antt =====
-- `Bind` and `Evict` of pkg/scheduler/cache/cache.go on tasks that nodes hold too. They change the status of the
-- task in place, and a node that holds the task by the same pointer shows the new status, while
-- its accounts stay. What a node holds under the key of the task's pod stands for that pointer.
use kube_arbitrator.Common.{[], ◌∷◌, none, some, String, string_key, ite}
use kube_arbitrator.Common.Map.{Map, lookup, insert}
use kube_arbitrator.Api.Objects.{pod_key}
use kube_arbitrator.Api.Status.{
  TaskStatus, binding as binding_status, releasing as releasing_status,
}
use kube_arbitrator.Api.TaskInfo.{TaskInfo}
use kube_arbitrator.Api.NodeInfo.{NodeInfo}
use kube_arbitrator.Cache.Store.{Cache, Attempt}
use kube_arbitrator.Cache.Calls.{found, missing, find_job_and_task, bind, evict}

-- The node shows the new status of a task that it holds under the key.
unfoldable pub show_status : String → TaskStatus → NodeInfo → NodeInfo
show_status key s ni = elim (lookup key ni.tasks) [
  | none ↦ ni
  | some t ↦ record ni { tasks = insert key (record t { status = s }) ni.tasks }
]

unfoldable pub show_on_all : String → TaskStatus → Map String NodeInfo → Map String NodeInfo
unfolding show_status
show_on_all key s [] = []
show_on_all key s ((name, ni) ∷ nodes) = (name, show_status key s ni) ∷ show_on_all key s nodes

-- The same for all nodes but one.
unfoldable pub show_on_others :
    String → String → TaskStatus → Map String NodeInfo → Map String NodeInfo
unfolding show_status
show_on_others own key s [] = []
show_on_others own key s ((name, ni) ∷ nodes) =
    (name, ite (string_key.dec name own) ni (show_status key s ni)) ∷ show_on_others own key s nodes

-- `Bind`. The status changes before `AddTask`.
unfoldable pub bind_in_place : Cache → TaskInfo → String → Attempt
unfolding find_job_and_task show_on_all bind
bind_in_place sc task_info hostname = elim (find_job_and_task sc task_info) [
  | missing e ↦ bind sc task_info hostname
  | found job task ↦ elim (lookup hostname sc.nodes) [
    | none ↦ bind sc task_info hostname
    | some node ↦
        bind (record sc { nodes = show_on_all (pod_key task.pod) binding_status sc.nodes })
          task_info hostname
  ]
]

-- `Evict`. The task's own node gives the task up before the status changes.
unfoldable pub evict_in_place : Cache → TaskInfo → Attempt
unfolding find_job_and_task show_on_others evict
evict_in_place sc task_info = elim (find_job_and_task sc task_info) [
  | missing e ↦ evict sc task_info
  | found job task ↦ elim (lookup task.node_name sc.nodes) [
    | none ↦ evict sc task_info
    | some node ↦
        evict
          (record sc {
            nodes = show_on_others task.node_name (pod_key task.pod) releasing_status sc.nodes;
          })
          task_info
  ]
]
