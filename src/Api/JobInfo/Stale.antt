-- ===== src/Api/JobInfo/Stale.antt =====
-- `DeleteTaskInfo` with an argument whose status is not that of the stored task, which is how the
-- cache calls it when a pod comes in with another status than the cached one.
use kube_arbitrator.Common.{◌≡◌, refl, ◌≢◌, none, some, string_key, arith, ok, ◌∙◌}
use kube_arbitrator.Common.Map.{lookup, lookup-remove_self}
use kube_arbitrator.Api.Resource.{Resource}
use kube_arbitrator.Api.TaskInfo.{TaskInfo}
use kube_arbitrator.Api.JobInfo.{JobInfo, delete_task_info, delete_task_index}
use kube_arbitrator.Api.JobInfo.Invariant.{IsConsistent, indexed, indexed-delete}
use kube_arbitrator.Api.JobInfo.Accounts.{rest, release_task-rest, delete_task_index_frame}

-- In a consistent job, where `DeleteTaskInfo` is given a task whose UID is stored under another status
-- than the argument has: the call succeeds and the task is gone from the tasks, but the index still
-- lists it under the status that it was stored with.
pub delete_task_info_stale :
    {x y : Resource} (ps : JobInfo) (pi t : TaskInfo)
    → IsConsistent x y ps
    → lookup pi.uid ps.tasks ≡ some t
    → t.status ≢ pi.status
    → (ps' : JobInfo) × (delete_task_info ps pi ≡ ok ps')
      × (lookup pi.uid ps'.tasks ≡ none)
      × (indexed ps' t.status pi.uid ≡ some t)
unfolding delete_task_info rest
delete_task_info_stale {x} {y} ps pi t c stored differ = (
  delete_task_index (rest x y ps pi.uid) pi,
  rw (stored, delete_task_info, release_task-rest ps t pi.uid c.accounts stored) refl,
  rw (delete_task_index_frame (rest x y ps pi.uid) pi) (lookup-remove_self pi.uid ps.tasks),
  indexed-delete (rest x y ps pi.uid) pi t.status pi.uid ∙ ground (arith, c.index t.status pi.uid),
)
