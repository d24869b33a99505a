-- ===== src/Api/JobInfo.antt =====
-- `JobInfo` of pkg/scheduler/api/job_info.go: the tasks of a job, the index by status, and the
-- accounts of what the job requests and holds.
pub mod Invariant
pub mod Accounts
pub mod Changes
pub mod Clone
pub mod Stale
pub mod Owner
use kube_arbitrator.Common.{
  ℕ, Bool, List, [], ◌∷◌, ◌++◌, Option, none, some, String, string_key, if◌then◌else◌, Outcome, ok,
  panic, nil_dereference, ◌>>=◌,
}
use kube_arbitrator.Common.Int.{ℤ, pos}
use kube_arbitrator.Common.Map.{Map, lookup, insert, remove}
use kube_arbitrator.Api.Resource.{Resource, empty_resource, add, sub, clone as clone_resource}
use kube_arbitrator.Api.Objects.{SchedulingSpec, PodDisruptionBudget}
use kube_arbitrator.Api.Status.{
  TaskStatus, status_key, Error, allocated_status, validate_status_update,
}
use kube_arbitrator.Api.TaskInfo.{TaskInfo, TasksMap, clone as clone_task}

-- `candidates` holds positions in the session's list of nodes, for the source's pointers into it;
-- `none` is the nil slice, which means every node.
pub record JobInfo : Type 0 where
  pub uid : String
  pub name : String
  pub namespace : String
  pub priority : ℤ
  pub node_selector : Map String String
  pub min_available : ℤ
  pub task_status_index : Map TaskStatus TasksMap
  pub tasks : TasksMap
  pub allocated : Resource
  pub total_request : Resource
  pub candidates : Option (List ℕ)
  pub sched_spec : Option SchedulingSpec
  pub pdb : Option PodDisruptionBudget

-- `NewJobInfo`.
abbrev pub new_job_info : String → JobInfo
new_job_info uid = record {
  uid = uid;
  name = "";
  namespace = "";
  priority = pos 0;
  node_selector = [];
  min_available = pos 0;
  task_status_index = [];
  tasks = [];
  allocated = empty_resource;
  total_request = empty_resource;
  candidates = none;
  sched_spec = none;
  pdb = none;
}

-- `for k, v := range from { to[k] = v }`.
unfoldable pub copy_into : Map String String → Map String String → Map String String
copy_into to [] = to
copy_into to ((k, v) ∷ from) = copy_into (insert k v to) from

-- `SetSchedulingSpec`.
unfoldable pub set_scheduling_spec : JobInfo → SchedulingSpec → JobInfo
set_scheduling_spec ps spec = record ps {
  name = spec.name;
  namespace = spec.namespace;
  min_available = spec.min_available;
  node_selector = copy_into ps.node_selector spec.node_selector;
  sched_spec = some spec;
}

-- `SetPDB`.
unfoldable pub set_pdb : JobInfo → PodDisruptionBudget → Outcome JobInfo
set_pdb ps pdb = elim pdb.min_available [
  | none ↦ panic nil_dereference
  | some n ↦ ok (record ps { name = pdb.name; min_available = n; pdb = some pdb })
]

-- `m[status]` where a missing entry reads as the nil map.
unfoldable pub tasks_with : TaskStatus → Map TaskStatus TasksMap → TasksMap
tasks_with status index = elim (lookup status index) [ none ↦ [] | some ts ↦ ts ]

unfoldable pub clones : TasksMap → List TaskInfo
clones [] = []
clones ((k, t) ∷ m) = clone_task t ∷ clones m

-- `GetTasks`.
unfoldable pub get_tasks : JobInfo → List TaskStatus → List TaskInfo
get_tasks ps [] = []
get_tasks ps (status ∷ statuses) =
    clones (tasks_with status ps.task_status_index) ++ get_tasks ps statuses

-- `addTaskIndex`: the inner map is made where the status has none yet.
unfoldable pub add_task_index : JobInfo → TaskInfo → JobInfo
unfolding tasks_with
add_task_index ps pi = record ps {
  task_status_index =
      insert pi.status (insert pi.uid pi (tasks_with pi.status ps.task_status_index))
        ps.task_status_index;
}

-- `AddTaskInfo`.
unfoldable pub add_task_info : JobInfo → TaskInfo → JobInfo
unfolding add_task_index
add_task_info ps pi =
    let ps' : JobInfo = add_task_index (record ps { tasks = insert pi.uid pi ps.tasks }) pi in
    record ps' {
      total_request = add ps'.total_request pi.resreq;
      allocated = if allocated_status pi.status then add ps'.allocated pi.resreq else ps'.allocated;
    }

-- `deleteTaskIndex`: an inner map that becomes empty goes too.
unfoldable pub shrink_index :
    TaskStatus → TasksMap → Map TaskStatus TasksMap → Map TaskStatus TasksMap
shrink_index status [] index = remove status index
shrink_index status (e ∷ ts) index = insert status (e ∷ ts) index

unfoldable pub delete_task_index : JobInfo → TaskInfo → JobInfo
unfolding shrink_index
delete_task_index ps pi = elim (lookup pi.status ps.task_status_index) [
  | none ↦ ps
  | some ts ↦ record ps {
    task_status_index = shrink_index pi.status (remove pi.uid ts) ps.task_status_index;
  }
]

-- The body of the `if` of `DeleteTaskInfo`, for the task that is stored under the UID.
unfoldable pub release_task : JobInfo → TaskInfo → String → Outcome JobInfo
release_task ps task uid = do
  total ← sub ps.total_request task.resreq
  held ← if allocated_status task.status then sub ps.allocated task.resreq else ok ps.allocated
  ok (record ps { total_request = total; allocated = held; tasks = remove uid ps.tasks })

-- `DeleteTaskInfo`. The index is searched under the status of the argument.
unfoldable pub delete_task_info : JobInfo → TaskInfo → Outcome JobInfo
unfolding release_task delete_task_index
delete_task_info ps pi = elim (lookup pi.uid ps.tasks) [
  | none ↦ ok (delete_task_index ps pi)
  | some task ↦ do ps' ← release_task ps task pi.uid; ok (delete_task_index ps' pi)
]

-- `UpdateTaskStatus`. The task is returned too, since the source changes it in place.
unfoldable pub update_task_status :
    JobInfo → TaskInfo → TaskStatus → Outcome (JobInfo × TaskInfo × Option Error)
unfolding delete_task_info add_task_info validate_status_update
update_task_status ps task status = elim (validate_status_update task.status status) [
  | some e ↦ ok (ps, task, some e)
  | none ↦ do
    ps' ← delete_task_info ps task
    let task' = record task { status = status }
    ok (add_task_info ps' task', task', none)
]

-- The loop of `Clone` over the tasks.
unfoldable pub add_clones : JobInfo → TasksMap → JobInfo
unfolding add_task_info
add_clones info [] = info
add_clones info ((k, t) ∷ ts) = add_clones (add_task_info info (clone_task t)) ts

-- `Clone`. `Priority`, `Candidates`, `SchedSpec` and `PDB` are not copied.
unfoldable pub clone : JobInfo → JobInfo
unfolding add_clones copy_into
clone ps =
    add_clones
      (record (new_job_info ps.uid) {
        name = ps.name;
        namespace = ps.namespace;
        min_available = ps.min_available;
        node_selector = copy_into [] ps.node_selector;
        allocated = clone_resource ps.allocated;
        total_request = clone_resource ps.total_request;
      })
      ps.tasks
