-- ===== src/Api/JobInfo/Invariant.antt =====
-- What `AddTaskInfo`, `DeleteTaskInfo` and `UpdateTaskStatus` keep: the index by status lists
-- exactly the stored tasks, each under its status, and the two accounts are the sums of requests.
use kube_arbitrator.Common.{
  ◌≡◌, inl, inr, ite, Bool, true, [], ◌∷◌, Option, none, some, String, string_key, arith,
  Option-cases,
}
use kube_arbitrator.Common.Map.{Map, lookup, insert, remove, lookup-insert, lookup-remove}
use kube_arbitrator.Api.Resource.{Resource, add}
use kube_arbitrator.Api.Status.{TaskStatus, TaskStatus_discrete, status_key, allocated_status}
use kube_arbitrator.Api.TaskInfo.{TaskInfo, TasksMap}
use kube_arbitrator.Api.Requested.{Distinct, requested}
use kube_arbitrator.Api.JobInfo.{
  JobInfo, tasks_with, add_task_index, shrink_index, delete_task_index,
}

-- The entry of the index for a status and a UID.
abbrev pub indexed : JobInfo → TaskStatus → String → Option TaskInfo
indexed ps s u = lookup u (tasks_with s ps.task_status_index)

-- A task, if its status is `s`.
abbrev pub with_status : TaskStatus → Option TaskInfo → Option TaskInfo
with_status s none = none
with_status s (some t) = ite (TaskStatus_discrete t.status s) (some t) none

abbrev pub any_task : TaskInfo → Bool
any_task t = true

abbrev pub is_allocated : TaskInfo → Bool
is_allocated t = allocated_status t.status

-- The tasks stand under their UIDs, once each, and the accounts are the sums of their requests.
-- `extra` and `extra_held` are what the accounts hold beyond the tasks, nothing in the cache.
pub record IsAccounted (extra extra_held : Resource) (ps : JobInfo) : Type 0 where
  pub distinct : Distinct ps.tasks
  pub keyed : (u : String) (t : TaskInfo) → lookup u ps.tasks ≡ some t → t.uid ≡ u
  pub total : ps.total_request ≡ add (requested any_task ps.tasks) extra
  pub held : ps.allocated ≡ add (requested is_allocated ps.tasks) extra_held

-- The index lists exactly the stored tasks, each under its status.
abbrev pub IsIndexed : JobInfo → Type 0
IsIndexed ps = (s : TaskStatus) (u : String) → indexed ps s u ≡ with_status s (lookup u ps.tasks)

pub record IsConsistent (extra extra_held : Resource) (ps : JobInfo) : Type 0 where
  pub accounts : IsAccounted extra extra_held ps
  pub open accounts use *
  pub index : IsIndexed ps

tasks_with-insert :
    (s s' : TaskStatus) (ts : TasksMap) (index : Map TaskStatus TasksMap)
    → tasks_with s (insert s' ts index) ≡ ite (TaskStatus_discrete s' s) ts (tasks_with s index)
unfolding tasks_with
tasks_with-insert s s' ts index = ground (arith, lookup-insert s' s ts index)

tasks_with-remove :
    (s s' : TaskStatus) (index : Map TaskStatus TasksMap)
    → tasks_with s (remove s' index) ≡ ite (TaskStatus_discrete s' s) [] (tasks_with s index)
unfolding tasks_with
tasks_with-remove s s' index = ground (arith, lookup-remove s' s index)

tasks_with-shrink :
    (s s' : TaskStatus) (ts : TasksMap) (index : Map TaskStatus TasksMap)
    → tasks_with s (shrink_index s' ts index)
      ≡ ite (TaskStatus_discrete s' s) ts (tasks_with s index)
unfolding shrink_index
tasks_with-shrink s s' [] index = tasks_with-remove s s' index
tasks_with-shrink s s' (e ∷ ts) index = tasks_with-insert s s' (e ∷ ts) index

pub indexed-add :
    (ps : JobInfo) (pi : TaskInfo) (s : TaskStatus) (u : String)
    → indexed (add_task_index ps pi) s u
      ≡ ite
          (TaskStatus_discrete pi.status s)
          (ite (string_key.dec pi.uid u) (some pi) (indexed ps s u))
          (indexed ps s u)
unfolding add_task_index
indexed-add ps pi s u = ground (
  arith,
  tasks_with-insert s pi.status (insert pi.uid pi (tasks_with pi.status ps.task_status_index))
      ps.task_status_index,
  lookup-insert pi.uid u pi (tasks_with pi.status ps.task_status_index),
)

pub indexed-delete :
    (ps : JobInfo) (pi : TaskInfo) (s : TaskStatus) (u : String)
    → indexed (delete_task_index ps pi) s u
      ≡ ite
          (TaskStatus_discrete pi.status s)
          (ite (string_key.dec pi.uid u) none (indexed ps s u))
          (indexed ps s u)
unfolding delete_task_index tasks_with lookup
indexed-delete ps pi s u = elim (Option-cases (lookup pi.status ps.task_status_index)) [
  | inl e ↦ rw (e, delete_task_index) (ground arith)
  | inr (ts, e) ↦
      rw (e, delete_task_index)
        (ground (
          arith,
          tasks_with-shrink s pi.status (remove pi.uid ts) ps.task_status_index,
          lookup-remove pi.uid u ts,
        ))
]
